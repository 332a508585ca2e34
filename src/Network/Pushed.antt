-- ===== src/Network/Pushed.antt =====
-- A push of src/spore_peer.rs, `push_stream`, to a node of the same program.
use spore_peer.Prelude.{
  ℕ, ◌+◌, ◌^◌, ◌≤◌, ◌≡◌, ◌⊎◌, refl, sym, ◌∙◌, subst, true, Bool-cases, inl, inr, [], some, Bytes,
  ascii, length, Result, ok, err, panic, Try, ◌>>◌, arith,
}
use spore_peer.Text.{is_utf8, from_hex-lower_hex}
use spore_peer.Json.{Value, object, lookup_field}
use spore_peer.Crates.{Crates}
use spore_peer.Refusal.{Refusal}
use spore_peer.Dict.{lookup}
use spore_peer.Frames.{write_frame}
use spore_peer.Cbor.Encode.{message, putobject_request}
use spore_peer.Cbor.Room.{message-room, length-message_pos}
use spore_peer.Cbor.Replies.{length-putobject_request}
use spore_peer.Client.Sync.{max_fetches}
use spore_peer.Cbor.Payloads.{put_fields, decode_message-putobject_request}
use spore_peer.Store.Files.{File, Hold, HoldFaults, body_name, cid_of}
use spore_peer.Store.Origin.{IsStep, same-IsStep, store_body-IsStep}
use spore_peer.Peer.Policy.{ServeConfig, enforce_write_policy}
use spore_peer.Peer.Rpc2.{
  Node, PushTimes, pushed_body, check_blid, put_checked, put_decoded, put_object, run_rpc2,
  handle_rpc2,
}
use spore_peer.Server.{Server, Setting, handle_frame}
use spore_peer.Server.Exchange.{IsMessage}
use spore_peer.Client.Push.{PushSetting, push_stream}
use spore_peer.Client.Push.Honest.{IsHonest, handshake, chain, put}
use spore_peer.Client.Push.Laws.{push_stream-Inv}
use spore_peer.Network.{Side, online, linked, write_to, on_frame, on_reply}
use spore_peer.Network.Calls.{read_message}
use spore_peer.Network.Requests.{
  handle_frame-rpc2, handshake-IsMessage, chain-IsMessage, handshake-keeps, chain-keeps,
}
use spore_peer.Network.Pull.{IsSane}

module _ (c : Crates) (f : HoldFaults) (t : PushTimes) (cfg : ServeConfig) (ip body : Bytes) where
  put_checked-IsStep :
      (node : Node) (p : Result Refusal (Unit {0}))
      → IsStep c body node.hold (put_checked c f t.write_at body node p).0.hold
  unfolding put_checked
  put_checked-IsStep node (ok u) = store_body-IsStep c body f t.write_at node.hold
  put_checked-IsStep node (err e) = same-IsStep c body node.hold
  put_checked-IsStep node panic = same-IsStep c body node.hold

  -- A push adds no body but the one that it carries.
  put_object-IsStep :
      (payload : Value) (node : Node)
      → pushed_body c payload ≡ ok body
      → IsStep c body node.hold (put_object c f t cfg ip payload node).0.hold
  unfolding put_object put_decoded
  put_object-IsStep payload node e =
      let policy =
        enforce_write_policy cfg ip t.limit_at (length body) node.limiter payload node.hold in
      subst (λ b. IsStep c body node.hold (put_decoded c f t cfg ip payload node b).0.hold) (sym e)
        (put_checked-IsStep (record node { limiter = policy.0 })
          (policy.1 >> check_blid c body payload))

module _ (c : Crates) (env : ℕ → Setting) (gone : Bytes) where
  -- What a turn makes of the node is what the frame's dispatch makes of it.
  on_reply-server : (i : ℕ) (r : Server × Try Bytes) → (on_reply c env i r).0.server ≡ r.0
  unfolding on_reply
  on_reply-server i (s, ok frame) = refl
  on_reply-server i (s, err u) = refl
  on_reply-server i (s, panic) = refl

  write_to-server :
      (P : Server → Type 0) (p : Side) (m : Bytes)
      → IsMessage m
      → P p.server
      → P (handle_frame c (env p.turn) p.server m).0
      → P (write_to c env gone p (write_frame m)).0.server
  unfolding write_to on_frame
  write_to-server P p m is same served = elim (Bool-cases p.closed) [
    | inl y ↦ rw (y, write_to) same
    | inr y ↦
        rw (y, read_message m is, on_frame, write_to)
          (subst P (sym (on_reply-server p.turn (handle_frame c (env p.turn) p.server m))) served)
  ]

-- Every body of the directory was there before, or is a file of the pushing store, of that name.
abbrev pub IsFrom : Hold → Server → Hold → Type 0
IsFrom local before hold =
    (k : Bytes) (file : File)
    → lookup (body_name k) hold ≡ some file
    → (lookup (body_name k) before.node.hold ≡ some file)
      ⊎ ((mine : File) × (lookup (body_name k) local ≡ some mine) × (mine.content ≡ file.content))

module _ (c : Crates) (env : ℕ → Setting) (gone eof token : Bytes) (local : Hold)
    (sane : IsSane local) (short : length token ≤ 2 ^ 20) (utf8 : is_utf8 token ≡ true)
    (before : Server) where
  module _ (seq : ℕ) (file : File) (low : seq ≤ 200 + max_fetches)
      (there : lookup (body_name (cid_of c file.content)) local ≡ some file) where
    abbrev put_frame : Bytes
    put_frame =
        message (ascii "Peer.PutObject") seq []
          (putobject_request (c.sha.digest file.content) file.content token)

    put_frame-IsMessage : IsMessage put_frame
    put_frame-IsMessage =
        let body = putobject_request (c.sha.digest file.content) file.content token in
        (
          length-message_pos (ascii "Peer.PutObject") seq [] body,
          omega (
            arith,
            message-room (ascii "Peer.PutObject") seq [] body,
            length-putobject_request (c.sha.digest file.content) file.content token,
            c.sha.length-digest file.content,
            (sane _ file there).1,
            short,
          ),
        )

    abbrev payload : Value
    payload = object (put_fields c.hex (c.sha.digest file.content) file.content token)

    payload-pushed_body : pushed_body c payload ≡ ok file.content
    unfolding pushed_body lookup_field
    payload-pushed_body =
        let decodes : c.hex.decode (c.hex.encode file.content) ≡ some file.content =
          c.hex.decode_lem (c.hex.encode file.content)
          ∙ rw (c.hex.encode_lem file.content)
              (from_hex-lower_hex file.content (sane _ file there).0) in
        rw decodes refl

    put_frame-IsFrom :
        (i : ℕ) (s : Server)
        → IsFrom local before s.node.hold
        → IsFrom local before (handle_frame c (env i) s put_frame).0.node.hold
    unfolding handle_rpc2 run_rpc2
    put_frame-IsFrom i s h =
        let e = env i in
        let (pos, cap) = put_frame-IsMessage in
        let served =
          handle_frame-rpc2 c e s put_frame _
            (decode_message-putobject_request c.hex seq (c.sha.digest file.content) file.content
              token (omega (arith, low)) (omega (arith, c.sha.length-digest file.content))
              (omega (arith, (sane _ file there).1)) (omega (arith, short)) utf8
              (omega (arith, cap)))
            refl refl in
        let step =
          put_object-IsStep c e.hold_faults e.push e.cfg e.ip file.content payload s.node
            payload-pushed_body in
        subst (λ r. IsFrom local before r.0.node.hold) (sym served)
          (λ k g l. elim (step k g l) [
            | inl old ↦ h k g old
            | inr (name, same) ↦ inr (file, rw name there, sym same)
          ])

  IsHonest-keeps :
      (p : Side) (frame : Bytes)
      → IsHonest c token local frame
      → IsFrom local before p.server.node.hold
      → IsFrom local before (write_to c env gone p frame).0.server.node.hold
  IsHonest-keeps p frame handshake h =
      write_to-server c env gone (λ s. IsFrom local before s.node.hold) p _ handshake-IsMessage h
        (subst (λ s. IsFrom local before s.node.hold)
          (sym (handshake-keeps c (env p.turn) p.server)) h)
  IsHonest-keeps p frame chain h =
      write_to-server c env gone (λ s. IsFrom local before s.node.hold) p _ chain-IsMessage h
        (subst (λ s. IsFrom local before s.node.hold) (sym (chain-keeps c (env p.turn) p.server)) h)
  IsHonest-keeps p frame (put seq file low there) h =
      write_to-server c env gone (λ s. IsFrom local before s.node.hold) p _
        (put_frame-IsMessage seq file low there) h
        (put_frame-IsFrom seq file low there p.turn p.server h)

-- A push to a node of the same program plants nothing: however the pass ends, and whatever the node's
-- policy, clock and file system are, every body of the node was there before, or is the body of that
-- name in the pushing store. The store's files are bytes of at most the size of a body, and the token
-- is UTF-8 of at most a mebibyte.
pub push_stream-IsFrom :
    (c : Crates) (env : ℕ → Setting) (gone eof : Bytes) (push : PushSetting) (s : Server)
    (local : Hold) (sane : IsSane local) (short : length push.token ≤ 2 ^ 20)
    (utf8 : is_utf8 push.token ≡ true)
    → IsFrom local s
        (push_stream
          (online c env gone eof)
          c
          push
          (linked c env gone eof s 0)
          local).0.conn.state.server.node.hold
push_stream-IsFrom c env gone eof push s local sane short utf8 =
    push_stream-Inv (online c env gone eof) c push local (λ p. IsFrom local s p.server.node.hold)
      (IsHonest-keeps c env gone eof push.token local sane short utf8 s) (linked c env gone eof s 0)
      (λ k file l. inl l)
