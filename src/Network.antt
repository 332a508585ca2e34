-- ===== src/Network.antt =====
-- A client of src/spore_peer.rs and a node of it on one connection: every frame that the client writes is
-- a turn of the node's `handle_client`, and what that writes is what the client reads.
pub mod Calls
pub mod Requests
pub mod Pull
pub mod Opening
pub mod Synced
pub mod Pushed
use spore_peer.Prelude.{ℕ, suc, Bool, true, false, [], Bytes, Result, ok, err, panic, Try}
use spore_peer.Crates.{Crates}
use spore_peer.Frames.{FrameError, write_frame, read_frame}
use spore_peer.Server.{Server, Setting, handle_frame}
use spore_peer.Client.Call.{Remote, Conn}

-- The node's side of the connection: the number of its turn, and whether its thread has ended.
pub record Side : Type 0 where
  pub server : Server
  pub turn : ℕ
  pub closed : Bool

module _ (c : Crates) (env : ℕ → Setting) where
  -- The node's turn over a frame that it has dispatched.
  unfoldable pub on_reply : ℕ → Server × Try Bytes → Side × Result Bytes Bytes
  on_reply i (s, ok frame) =
      (record { server = s; turn = suc i; closed = false }, ok (write_frame frame))
  on_reply i (s, err u) = (record { server = s; turn = suc i; closed = false }, ok [])
  on_reply i (s, panic) = (record { server = s; turn = suc i; closed = true }, ok [])

  unfoldable pub on_frame : Side → Result FrameError (Bytes × Bytes) → Side × Result Bytes Bytes
  unfolding on_reply
  on_frame p (ok (body, rest)) = on_reply p.turn (handle_frame c (env p.turn) p.server body)
  on_frame p (err e) = (record p { closed = true }, ok [])
  on_frame p panic = (record p { closed = true }, ok [])

  -- A write to a connection that the node has closed fails with the text `gone`; a read that finds
  -- nothing fails with the text `eof`.
  unfoldable pub write_to : Bytes → Side → Bytes → Side × Result Bytes Bytes
  unfolding on_frame
  write_to gone p frame = elim p.closed [
    | true ↦ (p, err gone)
    | false ↦ on_frame p (read_frame frame)
  ]

  abbrev pub online : Bytes → Bytes → Remote
  online gone eof = record { State = Side; send = write_to gone; eof = eof }

-- The connection of a node that has not closed it, with nothing unread.
abbrev pub linked :
    (c : Crates) (env : ℕ → Setting) (gone eof : Bytes) → Server → ℕ → Conn (online c env gone eof)
linked c env gone eof s i = record {
  state = record { server = s; turn = i; closed = false };
  unread = [];
}
