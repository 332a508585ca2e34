-- ===== src/Tests/Framing.antt =====
-- Runs of the frames of src/p2p.rs.
use spore_peer.Prelude.{◌≡◌, refl, [], ◌∷◌, ◌++◌, Bytes, ok, arith}
use spore_peer.Words.{from_le_bytes}
use spore_peer.Frames.{write_frame, read_exact, read_payload, read_frame, read_frame-write_frame}

read_frame-write_frame_example :
    read_frame (write_frame (5 ∷ 6 ∷ 7 ∷ []) ++ (1 ∷ [])) ≡ ok (5 ∷ 6 ∷ 7 ∷ [], 1 ∷ [])
read_frame-write_frame_example =
    read_frame-write_frame (5 ∷ 6 ∷ 7 ∷ []) (1 ∷ []) (omega arith) (omega arith)

abbrev carried : Bytes
carried = 2 ∷ 0 ∷ 0 ∷ 0 ∷ 8 ∷ 9 ∷ 1 ∷ []

carried_frame : read_frame carried ≡ ok (8 ∷ 9 ∷ [], 1 ∷ [])
unfolding read_frame read_exact read_payload from_le_bytes
carried_frame = refl
