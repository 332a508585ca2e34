-- ===== src/Network/Calls.antt =====
-- A call of src/p2p.rs, `rpc2_call`, to a node on the other side of the connection.
use spore_peer.Prelude.{ℕ, suc, false, ◌≡◌, refl, ap, [], append-nil, Bytes, ok}
use spore_peer.Crates.{Crates}
use spore_peer.Frames.{write_frame, read_frame, read_frame-write_frame}
use spore_peer.Cbor.Encode.{message}
use spore_peer.Cbor.Decode.{Rpc2Message, decode_message}
use spore_peer.Server.{Server, Setting, handle_frame}
use spore_peer.Server.Exchange.{IsMessage}
use spore_peer.Client.Call.{decoded, received, answer_of, rpc2_call}
use spore_peer.Network.{Side, online, linked, write_to, on_frame, on_reply}

pub read_message : (b : Bytes) → IsMessage b → read_frame (write_frame b) ≡ ok (b, [])
read_message b (pos, cap) = rw append-nil at (read_frame-write_frame b [] pos cap)

module _ (c : Crates) (env : ℕ → Setting) (gone eof : Bytes) where
  write_to-message :
      (s after : Server) (i : ℕ) (m reply : Bytes)
      → IsMessage m
      → handle_frame c (env i) s m ≡ (after, ok reply)
      → write_to c env gone (linked c env gone eof s i).state (write_frame m)
        ≡ (record { server = after; turn = suc i; closed = false }, ok (write_frame reply))
  unfolding write_to on_frame on_reply
  write_to-message s after i m reply sent served =
      rw (read_message m sent, on_frame) (ap (on_reply c env i) served)

  answer_of-reply :
      (p : Side) (reply : Bytes) (msg : Rpc2Message)
      → IsMessage reply
      → decode_message c.hex reply ≡ ok msg
      → answer_of (online c env gone eof) c [] (p, ok (write_frame reply))
        ≡ (record { state = p; unread = [] }, ok msg)
  unfolding answer_of received decoded
  answer_of-reply p reply msg back reads =
      rw (read_message reply back, received, reads, decoded) refl

  -- The call has the message that the node's reply decodes to, and the connection goes on with the node
  -- as the turn has left it.
  pub rpc2_call-online :
      (s after : Server) (i : ℕ) (method : Bytes) (seq : ℕ) (body reply : Bytes) (msg : Rpc2Message)
      → IsMessage (message method seq [] body)
      → handle_frame c (env i) s (message method seq [] body) ≡ (after, ok reply)
      → IsMessage reply
      → decode_message c.hex reply ≡ ok msg
      → rpc2_call (online c env gone eof) c (linked c env gone eof s i) method seq body
        ≡ (linked c env gone eof after (suc i), ok msg)
  unfolding rpc2_call
  rpc2_call-online s after i method seq body reply msg sent served back reads =
      rw (write_to-message s after i (message method seq [] body) reply sent served) (
        answer_of-reply (record { server = after; turn = suc i; closed = false }) reply msg back
          reads)
