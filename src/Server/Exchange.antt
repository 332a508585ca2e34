-- ===== src/Server/Exchange.antt =====
-- `handle_client` of src/spore_peer.rs over frames: what it promises of a connection's messages.
use spore_peer.Prelude.{
  ℕ, zero, suc, ◌≤◌, ◌<◌, ◌≡◌, refl, List, [], ◌∷◌, ◌++◌, append_assoc, Option, some, All, Bytes,
  length, ok, err, panic, Try, arith,
}
use spore_peer.Crates.{Crates}
use spore_peer.Frames.{
  FrameError, max_frame, write_frame, read_frame, read_frame-write_frame, read_frame-shorter,
}
use spore_peer.Server.{Server, Setting, handle_frame}
use spore_peer.Server.Connection.{
  Session, returned, panicked, ended, after_reply, replied, turn, turns, handle_client,
}

-- The bytes of a list of messages on a connection.
abbrev pub frames : List Bytes → Bytes
frames [] = []
frames (b ∷ bs) = write_frame b ++ frames bs

-- A message that `read_frame` accepts.
abbrev pub IsMessage : Bytes → Type 0
IsMessage b = (0 < length b) × (length b ≤ max_frame)

unfoldable pub replied_all : (Server → Session) → Server × Try Bytes → Session
replied_all loop (s, ok frame) = after_reply frame (loop s)
replied_all loop (s, err u) = loop s
replied_all loop (s, panic) = ended panicked s

module _ (c : Crates) (env : ℕ → Setting) where
  -- The messages answered one after the other, each in the state that the one before has left.
  unfoldable pub exchange : ℕ → List Bytes → Server → Session
  unfolding replied_all
  exchange i [] s = ended returned s
  exchange i (b ∷ bs) s = replied_all (exchange (suc i) bs) (handle_frame c (env i) s b)

  replied-all :
      (loop : Server → Option Session) (spec : Server → Session) (r : Server × Try Bytes)
      → ((s : Server) → loop s ≡ some (spec s))
      → replied loop r ≡ some (replied_all spec r)
  unfolding replied replied_all
  replied-all loop spec (s, ok frame) h = rw (h s) refl
  replied-all loop spec (s, err u) h = h s
  replied-all loop spec (s, panic) h = refl

  module _ (e : FrameError) (cut : Bytes) (broken : read_frame cut ≡ err e) where
    turns-exchange :
        (fuel i : ℕ) (bodies : List Bytes) (s : Server)
        → All IsMessage bodies
        → length (frames bodies ++ cut) < fuel
        → turns c env fuel i (frames bodies ++ cut) s ≡ some (exchange i bodies s)
    unfolding turns turn exchange
    turns-exchange zero i bodies s all enough = absurd (omega arith)
    turns-exchange (suc fuel) i [] s all enough = rw (broken, turn) refl
    turns-exchange (suc fuel) i (b ∷ bs) s ((pos, cap), all) enough =
        let split = append_assoc (write_frame b) (frames bs) cut in
        let read = read_frame-write_frame b (frames bs ++ cut) pos cap in
        let less = rw split at enough in
        let shorter =
          read_frame-shorter (write_frame b ++ (frames bs ++ cut)) b (frames bs ++ cut) read in
        rw (split, read, turn)
          (replied-all (turns c env fuel (suc i) (frames bs ++ cut)) (exchange (suc i) bs)
            (handle_frame c (env i) s b)
            (λ s'. turns-exchange fuel (suc i) bs s' all (omega (arith, less, shorter))))

    -- A connection that carries messages and then ends, or is cut inside a frame, or has a length that
    -- is refused, is answered like the messages one at a time: the node, and what is written, are
    -- those of the messages in their order, and nothing behind the last of them is served.
    pub handle_client-exchange :
        (bodies : List Bytes) (s : Server)
        → All IsMessage bodies
        → handle_client c env (frames bodies ++ cut) s ≡ some (exchange 0 bodies s)
    unfolding handle_client
    handle_client-exchange bodies s all =
        turns-exchange (suc (length (frames bodies ++ cut))) 0 bodies s all (omega arith)
