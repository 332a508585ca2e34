-- ===== src/Client/Push.antt =====
-- src/spore_peer.rs, `push_stream`: the bodies that the store has and a peer lacks are pushed.
pub mod Honest
pub mod Laws
use spore_peer.Prelude.{
  ℕ, suc, ◌+◌, List, [], ◌∷◌, ◌++◌, Bool, true, false, Option, none, some, Bytes, ascii, length,
  ltb, leb, ◌==◌, same_bytes, if◌then◌else◌, Result, ok, err, panic, Try,
}
use spore_peer.Json.{Value, Items, no_items, item, get_str, unwrap_or}
use spore_peer.Crates.{Crates}
use spore_peer.Dict.{lookup}
use spore_peer.Cbor.Encode.{putobject_request}
use spore_peer.Cbor.Decode.{Rpc2Message}
use spore_peer.Store.Files.{File, Hold, body_name}
use spore_peer.Peer.Chain.{chain_view}
use spore_peer.Client.Call.{Remote, Conn, Called, rpc2_call, opening}
use spore_peer.Client.Sync.{entry_pair, topo_text, max_fetches}

-- What surrounds a pass: the directory's path, the write token, and the text of the error with which
-- the reading of a file fails, by the number of the attempt; `missing` is the text where there is no
-- file of the name.
pub record PushSetting : Type 0 where
  pub dir : Bytes
  pub token : Bytes
  pub read_fault : ℕ → Option Bytes
  pub missing : Bytes

abbrev pub contains : Bytes → List Bytes → Bool
contains x [] = false
contains x (y ∷ ys) = if same_bytes y x then true else contains x ys

-- `HashSet::insert`.
unfoldable pub insert_text : Bytes → List Bytes → List Bytes
insert_text x xs = if contains x xs then xs else x ∷ xs

-- The hashes that the peer says it has.
unfoldable pub peer_has : Items → List Bytes → Result Bytes (List Bytes)
unfolding insert_text entry_pair
peer_has no_items texts = ok texts
peer_has (item entry es) texts = elim (entry_pair entry) [
  | ok (top, blid_hex) ↦ peer_has es (insert_text blid_hex texts)
  | err e ↦ err e
  | panic ↦ panic
]

-- `s.contains("401")`.
unfoldable pub has_401 : Bytes → Bool
has_401 (a ∷ b ∷ c ∷ s) =
    let rest = has_401 (b ∷ c ∷ s) in
    if same_bytes (a ∷ b ∷ c ∷ []) (ascii "401") then true else rest
has_401 _ = false

-- The variables of the loop, with the connection that it changes.
pub record Pushing (R : Remote) : Type 0 where
  pub conn : Conn R
  pub attempted : ℕ
  pub pushed : ℕ

pub data PushTurn (R : Remote) : Type 0 where
  goes : Pushing R → PushTurn R
  stops : Pushing R → PushTurn R
  fails : Pushing R → Bytes → PushTurn R
  panics : Pushing R → PushTurn R

abbrev pub Pushed : Remote → Type 0
Pushed R = Pushing R × Result Bytes (Unit {0})

module _ (R : Remote) (c : Crates) (env : PushSetting) where
  -- `fs::read` of the body, which the hold need not have under this name.
  unfoldable pub read_body : ℕ → Bytes → Hold → Result Bytes File
  read_body n cid_hex hold =
      let failed = λ (e : Bytes).
        ascii "read " ++ (env.dir ++ (ascii "/" ++ (body_name cid_hex ++ (ascii ": " ++ e)))) in
      elim (env.read_fault n) [
        | some e ↦ err (failed e)
        | none ↦ elim (lookup (body_name cid_hex) hold) [
          | none ↦ err (failed env.missing)
          | some file ↦ ok file
        ]
      ]

  -- The answer to a push.
  unfoldable pub on_answer : ℕ → Bytes → Pushing R → Called R Rpc2Message → PushTurn R
  unfolding has_401 topo_text
  on_answer topo cid p (conn, ok resp) =
      let q = record p { conn = conn } in
      let stored = unwrap_or (get_str resp.payload (ascii "BLID")) [] in
      if ltb 0 (length resp.error)
      then (if has_401 resp.error
          then fails q (ascii "push: write token rejected by peer: " ++ resp.error)
          else goes q)
      else (if same_bytes stored (c.hex.encode cid)
          then goes (record q { pushed = suc q.pushed })
          else fails q
              (topo_text topo ++ (ascii ": peer stored different hash (" ++ (stored ++ ascii ")"))))
  on_answer topo cid p (conn, err e) = fails (record p { conn = conn }) e
  on_answer topo cid p (conn, panic) = panics (record p { conn = conn })

  -- A body that does not have the hash is not sent.
  unfoldable pub push_file : ℕ → Bytes → Pushing R → Result Bytes File → PushTurn R
  unfolding on_answer
  push_file topo cid p (ok file) =
      if same_bytes (c.sha.digest file.content) cid
      then on_answer topo cid p (
          rpc2_call R c p.conn (ascii "Peer.PutObject") (200 + p.attempted)
            (putobject_request cid file.content env.token))
      else goes p
  push_file topo cid p (err e) = fails p e
  push_file topo cid p panic = panics p

  unfoldable pub push_entry : Hold → List Bytes → ℕ × Bytes → Pushing R → PushTurn R
  unfolding push_file read_body
  push_entry hold had (topo, cid) p =
      let q = record p { attempted = suc p.attempted } in
      if contains (c.hex.encode cid) had
      then goes p
      else (if leb max_fetches p.attempted
          then stops p
          else push_file topo cid q (read_body q.attempted (c.hex.encode cid) hold))

  unfoldable pub proceed : (Pushing R → Pushed R) → PushTurn R → Pushed R
  proceed loop (goes q) = loop q
  proceed loop (stops q) = (q, ok tt)
  proceed loop (fails q e) = (q, err e)
  proceed loop (panics q) = (q, panic)

  unfoldable pub push_entries : Hold → List Bytes → List (ℕ × Bytes) → Pushing R → Pushed R
  unfolding proceed push_entry
  push_entries hold had [] p = (p, ok tt)
  push_entries hold had (e ∷ es) p = proceed (push_entries hold had es) (push_entry hold had e p)

  unfoldable pub push_result : ℕ → ℕ → Pushed R → Pushing R × Result Bytes (ℕ × ℕ × ℕ)
  push_result height n (p, ok u) = (p, ok (height, p.pushed, n))
  push_result height n (p, err e) = (p, err e)
  push_result height n (p, panic) = (p, panic)

  -- The loop over the store's own chain.
  unfoldable pub push_chain :
      Hold
      → ℕ
      → List Bytes
      → Pushing R
      → Try (List (ℕ × Bytes))
      → Pushing R × Result Bytes (ℕ × ℕ × ℕ)
  unfolding push_entries push_result
  push_chain hold height had p (ok chain) =
      push_result height (length had) (push_entries hold had chain p)
  push_chain hold height had p (err u) =
      push_result height (length had) (push_entries hold had [] p)
  push_chain hold height had p panic = (p, panic)

  unfoldable pub push_known :
      Hold → ℕ → Pushing R → Result Bytes (List Bytes) → Pushing R × Result Bytes (ℕ × ℕ × ℕ)
  unfolding push_chain
  push_known hold height p (ok had) = push_chain hold height had p (chain_view hold)
  push_known hold height p (err e) = (p, err e)
  push_known hold height p panic = (p, panic)

  unfoldable pub push_opened : Hold → Called R (ℕ × Items) → Pushing R × Result Bytes (ℕ × ℕ × ℕ)
  unfolding push_known peer_has
  push_opened hold (conn, ok (height, es)) =
      push_known hold height (record { conn = conn; attempted = 0; pushed = 0 }) (peer_has es [])
  push_opened hold (conn, err e) = (record { conn = conn; attempted = 0; pushed = 0 }, err e)
  push_opened hold (conn, panic) = (record { conn = conn; attempted = 0; pushed = 0 }, panic)

  unfoldable pub push_stream : Conn R → Hold → Pushing R × Result Bytes (ℕ × ℕ × ℕ)
  unfolding push_opened
  push_stream conn hold = push_opened hold (opening R c conn)
