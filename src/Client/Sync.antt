-- ===== src/Client/Sync.antt =====
-- src/spore_peer.rs, `sync_stream`: the bodies that a peer has and the store lacks are fetched.
pub mod Laws
pub mod Pass
pub mod Complete
pub mod Reliable
use spore_peer.Prelude.{
  ℕ, suc, ◌+◌, [], ◌++◌, Option, none, some, Bytes, ascii, length, ltb, leb, ◌==◌, same_bytes,
  if◌then◌else◌, Result, ok, err, panic, Try,
}
use spore_peer.Json.{Value, num, Items, no_items, item, as_array, as_str, as_u64, unwrap_or}
use spore_peer.Text.{decimal}
use spore_peer.Crates.{Crates}
use spore_peer.Dict.{lookup, insert}
use spore_peer.Cbor.Encode.{getobject_request}
use spore_peer.Cbor.Decode.{Rpc2Message}
use spore_peer.Store.Decode.{hex_decode}
use spore_peer.Store.Files.{File, Hold, body_name}
use spore_peer.Client.Call.{Remote, Conn, Called, rpc2_call, opening}

-- What surrounds a pass: the directory's path, for each entry of the chain the time of a file that is
-- written for it and what the file system refuses then (a write that fails may leave some bytes in
-- the file), and the text of the crate hex for a text that does not decode.
pub record SyncSetting : Type 0 where
  pub dir : Bytes
  pub write_at : ℕ → ℕ
  pub write_fault : ℕ → Option (Option Bytes × Bytes)
  pub hex_error : Bytes → Bytes

-- `[topoheight, blid]`.
unfoldable pub pair_of : Items → Result Bytes (ℕ × Bytes)
pair_of (item top (item blid no_items)) = ok (unwrap_or (as_u64 top) 0, unwrap_or (as_str blid) [])
pair_of _ = err (ascii "chain entry must be [topoheight, blid]")

unfoldable pub entry_pair : Value → Result Bytes (ℕ × Bytes)
unfolding pair_of
entry_pair entry = elim (as_array entry) [
  | none ↦ err (ascii "chain entry not an array")
  | some pair ↦ pair_of pair
]

unfoldable pub topo_text : ℕ → Bytes
topo_text top = ascii "topo " ++ decimal top

-- The variables of the loop, with the directory and the connection that it changes.
pub record Progress (R : Remote) : Type 0 where
  pub hold : Hold
  pub conn : Conn R
  pub fetched : ℕ
  pub have : ℕ

-- How one entry ends: the loop goes on (`continue` too), it ends by `break`, or the pass fails.
pub data Turn (R : Remote) : Type 0 where
  goes : Progress R → Turn R
  stops : Progress R → Turn R
  fails : Progress R → Bytes → Turn R
  panics : Progress R → Turn R

abbrev pub Looped : Remote → Type 0
Looped R = Progress R × Result Bytes (Unit {0})

abbrev pub max_fetches : ℕ
max_fetches = 2000

module _ (R : Remote) (c : Crates) (env : SyncSetting) where
  -- `fs::write` of the body that was asked for, under the name that the peer has given.
  unfoldable pub write_fetched : ℕ → Bytes → Bytes → Progress R → Turn R
  write_fetched i blid_hex body p = elim (env.write_fault i) [
    | none ↦
        let file : File = record { content = body; modified = env.write_at i } in
        goes (record p { hold = insert (body_name blid_hex) file p.hold; fetched = suc p.fetched })
    | some (none, e) ↦
        fails p
          (ascii "write " ++ (env.dir ++ (ascii "/" ++ (body_name blid_hex ++ (ascii ": " ++ e)))))
    | some (some left, e) ↦
        let file : File = record { content = left; modified = env.write_at i } in
        fails (record p { hold = insert (body_name blid_hex) file p.hold })
          (ascii "write " ++ (env.dir ++ (ascii "/" ++ (body_name blid_hex ++ (ascii ": " ++ e)))))
  ]

  unfoldable pub check_fetched : ℕ → ℕ → Bytes → Bytes → Bytes → Progress R → Turn R
  unfolding write_fetched topo_text
  check_fetched i top blid_hex expected body p =
      if same_bytes (c.sha.digest body) expected
      then write_fetched i blid_hex body p
      else fails p (topo_text top ++ ascii ": body sha256 != blid (tampered)")

  -- The payload of the response, `hex::decode`d.
  unfoldable pub fetched_body : Value → Result Bytes Bytes
  fetched_body payload = elim (as_str payload) [
    | none ↦ err (ascii "object payload not bytes")
    | some body_hex ↦ elim (c.hex.decode body_hex) [
      | none ↦ err (env.hex_error body_hex)
      | some body ↦ ok body
    ]
  ]

  unfoldable pub on_body : ℕ → ℕ → Bytes → Bytes → Progress R → Result Bytes Bytes → Turn R
  unfolding check_fetched
  on_body i top blid_hex expected p (ok body) = check_fetched i top blid_hex expected body p
  on_body i top blid_hex expected p (err e) = fails p e
  on_body i top blid_hex expected p panic = panics p

  unfoldable pub on_object : ℕ → ℕ → Bytes → Bytes → Progress R → Called R Rpc2Message → Turn R
  unfolding on_body fetched_body
  on_object i top blid_hex expected p (conn, ok obj) =
      let q = record p { conn = conn } in
      if ltb 0 (length obj.error)
      then goes q
      else on_body i top blid_hex expected q (fetched_body obj.payload)
  on_object i top blid_hex expected p (conn, err e) = fails (record p { conn = conn }) e
  on_object i top blid_hex expected p (conn, panic) = panics (record p { conn = conn })

  -- An entry whose hash is well formed.
  unfoldable pub fetch : ℕ → ℕ → Bytes → Bytes → Progress R → Turn R
  unfolding on_object
  fetch i top blid_hex expected p = elim (lookup (body_name blid_hex) p.hold) [
    | some file ↦ goes (record p { have = suc p.have })
    | none ↦
        if leb max_fetches i
        then stops p
        else on_object i top blid_hex expected p
            (rpc2_call R c p.conn (ascii "Peer.GetObject") (100 + i) (getobject_request expected))
  ]

  -- A text that is no hash is passed over.
  unfoldable pub on_blid : ℕ → ℕ → Bytes → Progress R → Try Bytes → Turn R
  unfolding fetch
  on_blid i top blid_hex p (ok expected) =
      if length expected == 32 then fetch i top blid_hex expected p else goes p
  on_blid i top blid_hex p (err u) = goes p
  on_blid i top blid_hex p panic = panics p

  unfoldable pub sync_pair : ℕ → Progress R → Result Bytes (ℕ × Bytes) → Turn R
  unfolding on_blid
  sync_pair i p (ok (top, blid_hex)) = on_blid i top blid_hex p (hex_decode blid_hex)
  sync_pair i p (err e) = fails p e
  sync_pair i p panic = panics p

  -- What a turn leaves of the loop.
  unfoldable pub proceed : (Progress R → Looped R) → Turn R → Looped R
  proceed loop (goes q) = loop q
  proceed loop (stops q) = (q, ok tt)
  proceed loop (fails q e) = (q, err e)
  proceed loop (panics q) = (q, panic)

  unfoldable pub sync_entries : ℕ → Items → Progress R → Looped R
  unfolding proceed sync_pair entry_pair
  sync_entries i no_items p = (p, ok tt)
  sync_entries i (item entry es) p =
      proceed (sync_entries (suc i) es) (sync_pair i p (entry_pair entry))

  -- The result of the loop: the peer's height, the bodies fetched and those that were there.
  unfoldable pub sync_result : ℕ → Looped R → Progress R × Result Bytes (ℕ × ℕ × ℕ)
  sync_result height (p, ok u) = (p, ok (height, p.fetched, p.have))
  sync_result height (p, err e) = (p, err e)
  sync_result height (p, panic) = (p, panic)

  unfoldable pub sync_opened : Hold → Called R (ℕ × Items) → Progress R × Result Bytes (ℕ × ℕ × ℕ)
  unfolding sync_entries sync_result
  sync_opened hold (conn, ok (height, es)) =
      sync_result height
        (sync_entries 0 es (record { hold = hold; conn = conn; fetched = 0; have = 0 }))
  sync_opened hold (conn, err e) =
      (record { hold = hold; conn = conn; fetched = 0; have = 0 }, err e)
  sync_opened hold (conn, panic) =
      (record { hold = hold; conn = conn; fetched = 0; have = 0 }, panic)

  unfoldable pub sync_stream : Conn R → Hold → Progress R × Result Bytes (ℕ × ℕ × ℕ)
  unfolding sync_opened
  sync_stream conn hold = sync_opened hold (opening R c conn)
