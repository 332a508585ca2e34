-- ===== src/Client/Call.antt =====
-- src/p2p.rs, `rpc2_call`, and the two calls with which `sync_stream` and `push_stream` of
-- src/spore_peer.rs begin.
use spore_peer.Prelude.{
  ℕ, [], ◌++◌, Bytes, ascii, length, ltb, if◌then◌else◌, Result, ok, err, panic, Try,
}
use spore_peer.Json.{Items, no_items, get_u64, as_array, unwrap_or}
use spore_peer.Crates.{Crates}
use spore_peer.Frames.{FrameError, short_read, bad_length, write_frame, read_frame}
use spore_peer.Cbor.Encode.{message, handshake_request, chain_request}
use spore_peer.Cbor.Decode.{Rpc2Message, decode_message}

-- The other side of a connection: what it does with the bytes that are written to it, and the bytes
-- that it sends then, or the text of the error with which the write fails. `eof` is the text of the
-- error of a read that finds too few bytes.
pub record Remote : Type 1 where
  pub State : Type 0
  pub send : State → Bytes → State × Result Bytes Bytes
  pub eof : Bytes

-- A connection: the other side, and what it has sent and nobody has read.
pub record Conn (R : Remote) : Type 0 where
  pub state : R.State
  pub unread : Bytes

-- The text of the error of `read_frame`.
abbrev pub frame_text : Bytes → FrameError → Bytes
frame_text eof short_read = eof
frame_text eof bad_length = ascii "bad frame length"

-- The value of a call that has changed the connection.
abbrev pub Called : Remote → Type 0 → Type 0
Called R A = Conn R × Result Bytes A

unfoldable pub decoded : Try Rpc2Message → Result Bytes Rpc2Message
decoded (ok msg) = ok msg
decoded (err u) = err (ascii "undecodable rpc2 response")
decoded panic = panic

module _ (R : Remote) where
  -- The response is read off what is there after the write.
  unfoldable pub received :
      Crates → R.State → Result FrameError (Bytes × Bytes) → Called R Rpc2Message
  unfolding decoded
  received c s (ok (resp, rest)) =
      (record { state = s; unread = rest }, decoded (decode_message c.hex resp))
  received c s (err e) = (record { state = s; unread = [] }, err (frame_text R.eof e))
  received c s panic = (record { state = s; unread = [] }, panic)

  unfoldable pub answer_of : Crates → Bytes → R.State × Result Bytes Bytes → Called R Rpc2Message
  unfolding received
  answer_of c unread (s, ok sent) = received c s (read_frame (unread ++ sent))
  answer_of c unread (s, err e) = (record { state = s; unread = unread }, err e)
  answer_of c unread (s, panic) = (record { state = s; unread = unread }, panic)

  unfoldable pub rpc2_call : Crates → Conn R → Bytes → ℕ → Bytes → Called R Rpc2Message
  unfolding answer_of
  rpc2_call c conn method seq body =
      answer_of c conn.unread (R.send conn.state (write_frame (message method seq [] body)))

  -- An error that the peer answers ends the pass, with the name of the call before it.
  unfoldable pub or_refused : Bytes → Called R Rpc2Message → Called R Rpc2Message
  or_refused name (conn, ok msg) =
      if ltb 0 (length msg.error) then (conn, err (name ++ msg.error)) else (conn, ok msg)
  or_refused name (conn, err e) = (conn, err e)
  or_refused name (conn, panic) = (conn, panic)

  -- The peer's height and the entries of its chain.
  unfoldable pub chain_of : ℕ → Called R Rpc2Message → Called R (ℕ × Items)
  chain_of height (conn, ok msg) = (conn, ok (height, unwrap_or (as_array msg.payload) no_items))
  chain_of height (conn, err e) = (conn, err e)
  chain_of height (conn, panic) = (conn, panic)

  unfoldable pub after_handshake : Crates → Called R Rpc2Message → Called R (ℕ × Items)
  unfolding or_refused chain_of
  after_handshake c (conn, ok hs) =
      let height = unwrap_or (get_u64 hs.payload (ascii "H")) 0 in
      chain_of height (
        or_refused (ascii "chain: ")
          (rpc2_call c conn (ascii "Peer.Chain") 2 (chain_request 0 5000)))
  after_handshake c (conn, err e) = (conn, err e)
  after_handshake c (conn, panic) = (conn, panic)

  -- The first two calls of both directions.
  unfoldable pub opening : Crates → Conn R → Called R (ℕ × Items)
  unfolding after_handshake
  opening c conn = after_handshake c (
      or_refused (ascii "handshake: ")
        (rpc2_call c conn (ascii "Peer.Handshake") 1 (handshake_request 1)))
