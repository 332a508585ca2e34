-- ===== src/Server.antt =====
-- src/spore_peer.rs, `handle_client`: one frame of a connection, dispatched to the peer's requests, to
-- the fabric or to the legacy fetch.
pub mod Connection
pub mod Exchange
pub mod Legacy
use spore_peer.Prelude.{
  Bool, [], Option, none, some, Bytes, ascii, length, ltb, leb, take, same_bytes, ◌&&◌, Bool-cases,
  Option-cases, inl, inr, if◌then◌else◌, Result, ok, err, panic, Try,
}
use spore_peer.Json.{Value, get_str, unwrap_or}
use spore_peer.Crates.{Crates}
use spore_peer.Refusal.{Refusal, refusal_text, bad_request}
use spore_peer.Cbor.Decode.{Rpc2Message, decode_message}
use spore_peer.Store.Files.{HoldFaults, serve_body}
use spore_peer.Store.Laws.{IsHold}
use spore_peer.Peer.Policy.{ServeConfig}
use spore_peer.Peer.Rpc2.{Node, PushTimes, handle_rpc2}
use spore_peer.Peer.Laws.{handle_rpc2-IsHold}
use spore_peer.Peer.Fetch.{frame_ok, frame_err}
use spore_peer.Fabric.State.{Faults}
use spore_peer.Fabric.Put.{Relay}
use spore_peer.Fabric.Invariant.{IsRelay, run_fput-IsRelay, run_fpop-IsRelay}
use spore_peer.Fabric.Reach.{run_freg-IsRelay}
use spore_peer.Fabric.Reply.{
  Verb, freg, fput, fpop, VerbTimes, run_verb, verb_of, handle_verb, method_verb,
  handle_rpc2_fabric,
}

-- `none` stands for a node without the fabric.
pub record Server : Type 0 where
  pub node : Node
  pub fabric : Option Relay

-- What surrounds one frame: the address, the settings, the clock and the file system.
pub record Setting : Type 0 where
  pub ip : Bytes
  pub cfg : ServeConfig
  pub push : PushTimes
  pub verb : VerbTimes
  pub hold_faults : HoldFaults
  pub faults : Faults

-- `s.starts_with(front)`.
abbrev pub starts_with : Bytes → Bytes → Bool
starts_with s front = leb (length front) (length s) && same_bytes (take (length front) s) front

unfoldable pub fetch_reply : Result Refusal Bytes → Try Bytes
fetch_reply (ok bytes) = ok (frame_ok bytes)
fetch_reply (err e) = ok (frame_err (refusal_text e))
fetch_reply panic = panic

unfoldable pub on_fabric : Server → Option Relay × Try Bytes → Server × Try Bytes
on_fabric s (fabric, frame) = (record s { fabric = fabric }, frame)

-- The legacy JSON requests.
unfoldable pub handle_legacy : Crates → Setting → Server → Option Value → Server × Try Bytes
unfolding fetch_reply on_fabric
handle_legacy c env s none = (s, ok (frame_err (refusal_text bad_request)))
handle_legacy c env s (some req) = elim (get_str req (ascii "verb")) [
  | some v ↦ on_fabric s (handle_verb c env.faults env.verb env.ip req s.fabric)
  | none ↦ (s, fetch_reply (serve_body c s.node.hold (unwrap_or (get_str req (ascii "cid")) [])))
]

unfoldable pub handle_message : Crates → Setting → Server → Rpc2Message → Server × Try Bytes
unfolding on_fabric
handle_message c env s msg =
    let done = handle_rpc2 c env.hold_faults env.push env.cfg env.ip msg s.node in
    if starts_with msg.method (ascii "Peer.Fabric")
    then on_fabric s (handle_rpc2_fabric c env.faults env.verb env.ip msg s.fabric)
    else (record s { node = done.0 }, done.1)

-- A frame is a message where it decodes to one with a method, and a legacy request otherwise.
unfoldable pub dispatch : Crates → Setting → Server → Bytes → Try Rpc2Message → Server × Try Bytes
unfolding handle_legacy handle_message
dispatch c env s body (ok msg) =
    if ltb 0 (length msg.method)
    then handle_message c env s msg
    else handle_legacy c env s (c.json.from_slice body)
dispatch c env s body (err u) = handle_legacy c env s (c.json.from_slice body)
dispatch c env s body panic = (s, panic)

unfoldable pub handle_frame : Crates → Setting → Server → Bytes → Server × Try Bytes
unfolding dispatch
handle_frame c env s body = dispatch c env s body (decode_message c.hex body)

-- The relay, if the node has one, is within its caps.
abbrev pub IsFabric : Option Relay → Type 0
IsFabric none = Unit
IsFabric (some r) = IsRelay r

-- The bodies of the directory are named by their hashes, and the relay is within its caps.
abbrev pub IsServer : Crates → Server → Type 0
IsServer c s = IsHold c s.node.hold × IsFabric s.fabric

module _ (c : Crates) (f : Faults) (t : VerbTimes) (ip : Bytes) where
  run_verb-IsRelay :
      (v : Verb) (req : Value) (r : Relay) → IsRelay r → IsRelay (run_verb c f t ip v req r).0
  unfolding run_verb
  run_verb-IsRelay freg req r h = run_freg-IsRelay c t.reg_at req r h
  run_verb-IsRelay fput req r h = run_fput-IsRelay c f t.put ip req r h
  run_verb-IsRelay fpop req r h = run_fpop-IsRelay c f t.pop ip req r h

  handle_verb-IsFabric :
      (req : Value) (o : Option Relay) → IsFabric o → IsFabric (handle_verb c f t ip req o).0
  unfolding handle_verb
  handle_verb-IsFabric req none h = tt
  handle_verb-IsFabric req (some r) h = elim (Option-cases (verb_of req)) [
    | inl y ↦ rw (IsFabric, y) h
    | inr (v, y) ↦ rw (IsFabric, y) (run_verb-IsRelay v req r h)
  ]

  handle_rpc2_fabric-IsFabric :
      (msg : Rpc2Message) (o : Option Relay)
      → IsFabric o
      → IsFabric (handle_rpc2_fabric c f t ip msg o).0
  unfolding handle_rpc2_fabric
  handle_rpc2_fabric-IsFabric msg none h = tt
  handle_rpc2_fabric-IsFabric msg (some r) h = elim (Option-cases (method_verb msg.method)) [
    | inl y ↦ rw (IsFabric, y) h
    | inr (v, y) ↦ rw (IsFabric, y) (run_verb-IsRelay v msg.payload r h)
  ]

module _ (c : Crates) (env : Setting) (s : Server) where
  handle_legacy-IsServer :
      (o : Option Value) → IsServer c s → IsServer c (handle_legacy c env s o).0
  unfolding handle_legacy on_fabric
  handle_legacy-IsServer none h = h
  handle_legacy-IsServer (some req) h = elim (Option-cases (get_str req (ascii "verb"))) [
    | inl y ↦ rw (handle_legacy, y) h
    | inr (v, y) ↦
        rw (handle_legacy, y)
          (h.0, handle_verb-IsFabric c env.faults env.verb env.ip req s.fabric h.1)
  ]

  handle_message-IsServer :
      (msg : Rpc2Message) → IsServer c s → IsServer c (handle_message c env s msg).0
  unfolding handle_message on_fabric
  handle_message-IsServer msg h = elim (Bool-cases (starts_with msg.method (ascii "Peer.Fabric"))) [
    | inl y ↦ rw y (h.0, handle_rpc2_fabric-IsFabric c env.faults env.verb env.ip msg s.fabric h.1)
    | inr y ↦
        rw y (handle_rpc2-IsHold c env.hold_faults env.push env.cfg env.ip msg s.node h.0, h.1)
  ]

  dispatch-IsServer :
      (body : Bytes) (m : Try Rpc2Message) → IsServer c s → IsServer c (dispatch c env s body m).0
  unfolding dispatch
  dispatch-IsServer body (ok msg) h = elim (Bool-cases (ltb 0 (length msg.method))) [
    | inl y ↦ rw y (handle_message-IsServer msg h)
    | inr y ↦ rw y (handle_legacy-IsServer (c.json.from_slice body) h)
  ]
  dispatch-IsServer body (err u) h = handle_legacy-IsServer (c.json.from_slice body) h
  dispatch-IsServer body panic h = h

  -- Whatever bytes a client sends as a frame, and whatever the clock and the file system are, the
  -- node that has served it still has every body under its hash, every queue within its cap with
  -- no pointer twice, and its registrations within their budget, if it had before.
  pub handle_frame-IsServer :
      (body : Bytes) → IsServer c s → IsServer c (handle_frame c env s body).0
  unfolding handle_frame
  handle_frame-IsServer body h = dispatch-IsServer body (decode_message c.hex body) h
