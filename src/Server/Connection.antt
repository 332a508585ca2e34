-- ===== src/Server/Connection.antt =====
-- src/spore_peer.rs, `handle_client`: the loop over what a connection carries until it ends.
use spore_peer.Prelude.{
  ℕ, zero, suc, ◌<◌, ◌≡◌, refl, [], ◌++◌, Option, none, some, Bytes, length, Result, Result-cases,
  inl, inr, ok, err, panic, Try, arith,
}
use spore_peer.Crates.{Crates}
use spore_peer.Frames.{FrameError, write_frame, read_frame, read_frame-shorter}
use spore_peer.Server.{Server, Setting, IsServer, handle_frame, handle_frame-IsServer}

-- How the thread of a connection ends: by the return, or by a panic.
pub data Ending : Type 0 where
  returned panicked : Ending

-- The node at the end of a connection, and all that has been written to it.
pub record Session : Type 0 where
  pub server : Server
  pub sent : Bytes
  pub ending : Ending

abbrev pub ended : Ending → Server → Session
ended how s = record { server = s; sent = []; ending = how }

-- A reply before what the rest of the connection is answered.
abbrev pub after_reply : Bytes → Session → Session
after_reply frame x = record x { sent = write_frame frame ++ x.sent }

abbrev after_replies : Bytes → Option Session → Option Session
after_replies frame none = none
after_replies frame (some x) = some (after_reply frame x)

-- The reply is written and the loop goes on.
unfoldable pub replied : (Server → Option Session) → Server × Try Bytes → Option Session
replied loop (s, ok frame) = after_replies frame (loop s)
replied loop (s, err u) = loop s
replied loop (s, panic) = some (ended panicked s)

module _ (c : Crates) (env : ℕ → Setting) where
  -- A turn over what `read_frame` has given; the loop ends where that is an error.
  unfoldable pub turn :
      ℕ
      → (Bytes → Server → Option Session)
      → Server
      → Result FrameError (Bytes × Bytes)
      → Option Session
  unfolding replied
  turn i loop s (ok (body, rest)) = replied (loop rest) (handle_frame c (env i) s body)
  turn i loop s (err e) = some (ended returned s)
  turn i loop s panic = some (ended panicked s)

  -- The turns from the number `i` on, of which there is no result where the fuel does not do.
  unfoldable pub turns : ℕ → ℕ → Bytes → Server → Option Session
  unfolding turn
  turns zero i stream s = none
  turns (suc fuel) i stream s = turn i (turns fuel (suc i)) s (read_frame stream)

  -- Every turn takes a frame, so the bytes bound the turns.
  unfoldable pub handle_client : Bytes → Server → Option Session
  unfolding turns
  handle_client stream s = turns (suc (length stream)) 0 stream s

  -- There is a session, and its node has the invariant.
  abbrev pub Ends : Option Session → Type 0
  Ends o = (x : Session) × (o ≡ some x) × IsServer c x.server

  after_replies-Ends : (frame : Bytes) (o : Option Session) → Ends o → Ends (after_replies frame o)
  after_replies-Ends frame o (x, e, h) = (after_reply frame x, rw e refl, h)

  replied-Ends :
      (loop : Server → Option Session) (r : Server × Try Bytes)
      → IsServer c r.0
      → ((s : Server) → IsServer c s → Ends (loop s))
      → Ends (replied loop r)
  unfolding replied
  replied-Ends loop (s, ok frame) h next = after_replies-Ends frame (loop s) (next s h)
  replied-Ends loop (s, err u) h next = next s h
  replied-Ends loop (s, panic) h next = (ended panicked s, refl, h)

  turns-Ends :
      (fuel i : ℕ) (stream : Bytes) (s : Server)
      → length stream < fuel
      → IsServer c s
      → Ends (turns fuel i stream s)
  unfolding turns turn
  turns-Ends zero i stream s enough h = absurd (omega arith)
  turns-Ends (suc fuel) i stream s enough h = elim (Result-cases (read_frame stream)) [
    | inl ((body, rest), y) ↦
        let less = read_frame-shorter stream body rest y in
        rw (y, turn)
          (replied-Ends (turns fuel (suc i) rest) (handle_frame c (env i) s body)
            (handle_frame-IsServer c (env i) s body h)
            (λ s' h'. turns-Ends fuel (suc i) rest s' (omega (arith, less, enough)) h'))
    | inr (inl (e, y)) ↦ rw (y, turn) (ended returned s, refl, h)
    | inr (inr y) ↦ rw (y, turn) (ended panicked s, refl, h)
  ]

  -- Whatever bytes a connection carries, its thread ends, and leaves the node with every body under its
  -- hash and the relay within its caps, if it was so before, whatever the clock and the file system do
  -- in each turn.
  pub handle_client-Ends :
      (stream : Bytes) (s : Server) → IsServer c s → Ends (handle_client stream s)
  unfolding handle_client
  handle_client-Ends stream s h = turns-Ends (suc (length stream)) 0 stream s (omega arith) h
