-- ===== src/Client/Fabric.antt =====
-- src/spore_peer.rs, `fabric_pub`: one verb of the fabric is asked of a relay.
pub mod Laws
use spore_peer.Prelude.{
  ℕ, ◌<◌, ◌≤◌, ◌≡◌, refl, sym, ap, ◌∙◌, List, [], ◌∷◌, ◌++◌, Bool, true, false, ◌&&◌, Option, none,
  some, Option-cases, Result-cases, Bool-cases, inl, inr, Bytes, ascii, length, ltb, leb, le→leb,
  leb→le, ◌==◌, same_bytes, if◌then◌else◌, Result, ok, err, panic, guard, ok_or, ◌>>=◌, ◌>>◌, arith,
}
use spore_peer.Json.{
  Value, Fields, Items, null, object, str, num, no_fields, insert_field, lookup_field, get, get_str,
  get_u64, as_str, as_array, item, no_items, and_then, unwrap_or,
}
use spore_peer.Text.{to_lowercase}
use spore_peer.Crates.{Crates}
use spore_peer.Dict.{lookup}
use spore_peer.Tokens.{ct_eq}
use spore_peer.Peers.Lines.{trim}
use spore_peer.Fabric.State.{FabricState, Registration}
use spore_peer.Fabric.Reg.{RegArgs, reg_args, is_handle_hex, is_live, run_freg}
use spore_peer.Fabric.Reg.Laws.{run_freg_live}
use spore_peer.Fabric.Reply.{freg, verb_of}
use spore_peer.Client.Call.{Remote, Conn, Called}
use spore_peer.Client.Legacy.{exchange}
use spore_peer.Client.Converge.{Connect}

pub record FabricCli : Type 0 where
  pub addr : Bytes
  pub sub : Bytes
  pub handle : Bytes
  pub token : Bytes
  pub nonce : Bytes
  pub pointer : Option Bytes
  pub lease : ℕ
  pub max : ℕ

-- `json!({ "verb": format!("f{sub}"), "handle": handle_hex })`
abbrev pub base_fields : FabricCli → Fields
base_fields o =
    insert_field (ascii "handle") (str o.handle)
      (insert_field (ascii "verb") (str (ascii "f" ++ o.sub)) no_fields)

abbrev pub with_nonce : Bytes → Fields → Fields
with_nonce nonce fs =
    if ltb 0 (length nonce) then insert_field (ascii "nonce") (str nonce) fs else fs

abbrev pub reg_fields : FabricCli → Fields
reg_fields o = with_nonce o.nonce (
    insert_field (ascii "lease") (num o.lease)
      (insert_field (ascii "token") (str o.token) (base_fields o)))

-- The request of a verb, or the text of a refusal before anything is sent.
unfoldable pub fabric_request : FabricCli → Result Bytes Value
fabric_request o =
    if same_bytes o.sub (ascii "reg")
    then (guard (leb 16 (length o.token)) (ascii "token must be >= 16 bytes (relay shape rule)")
        >> ok (object (reg_fields o)))
    else (if same_bytes o.sub (ascii "put")
        then (do
          p ← ok_or o.pointer (ascii "fabric put needs --pointer")
          ok (object (insert_field (ascii "pointer_hex") (str p) (base_fields o))))
        else (if same_bytes o.sub (ascii "pop")
            then ok (
                object (
                  insert_field (ascii "max") (num o.max)
                    (insert_field (ascii "token") (str o.token) (base_fields o))))
            else err (ascii "unknown fabric subcommand " ++ (o.sub ++ ascii " (reg|put|pop)"))))

-- The pointers that are texts, one a line.
unfoldable pub drained : Items → List Bytes
drained no_items = []
drained (item v vs) = elim (as_str v) [ none ↦ drained vs | some ph ↦ ph ∷ drained vs ]

-- What is printed to the standard output.
unfoldable pub printed : Bytes → Value → List Bytes
unfolding drained
printed sub body =
    if same_bytes sub (ascii "pop")
    then drained (unwrap_or (and_then (get body (ascii "pointers")) as_array) no_items)
    else []

unfoldable pub fabric_reply : Crates → Bytes → Bytes → Result Bytes (List Bytes)
unfolding printed
fabric_reply c sub [] = err (ascii "empty reply")
fabric_reply c sub (s ∷ rest) =
    if s == 0
    then ok (printed sub (unwrap_or (c.json.from_slice rest) null))
    else err (trim (c.from_utf8_lossy rest))

module _ (R : Remote) (c : Crates) where
  unfoldable pub on_fabric_reply : Bytes → Called R Bytes → R.State × Result Bytes (List Bytes)
  unfolding fabric_reply
  on_fabric_reply sub (conn, ok resp) = (conn.state, fabric_reply c sub resp)
  on_fabric_reply sub (conn, err e) = (conn.state, err e)
  on_fabric_reply sub (conn, panic) = (conn.state, panic)

  unfoldable pub fabric_connected :
      FabricCli → Value → R.State × Result Bytes (Unit {0}) → R.State × Result Bytes (List Bytes)
  unfolding on_fabric_reply
  fabric_connected o req (s, ok u) =
      on_fabric_reply o.sub (exchange R (record { state = s; unread = [] }) (c.json.to_string req))
  fabric_connected o req (s, err e) = (s, err (ascii "connect " ++ (o.addr ++ (ascii ": " ++ e))))
  fabric_connected o req (s, panic) = (s, panic)

  unfoldable pub fabric_requested :
      Connect R → FabricCli → R.State → Result Bytes Value → R.State × Result Bytes (List Bytes)
  unfolding fabric_connected
  fabric_requested net o s (ok req) = fabric_connected o req (net s o.addr)
  fabric_requested net o s (err e) = (s, err e)
  fabric_requested net o s panic = (s, panic)

  -- The other side and what is printed.
  unfoldable pub fabric_pub : Connect R → FabricCli → R.State → R.State × Result Bytes (List Bytes)
  unfolding fabric_requested fabric_request
  fabric_pub net o s = fabric_requested net o s (fabric_request o)
