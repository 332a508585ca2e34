-- ===== src/Cbor/Slices.antt =====
-- The slices that the decoder of src/p2p.rs takes.
use spore_peer.Prelude.{
  ℕ, ◌+◌, ◌-◌, ◌≡◌, true, ◌++◌, some, Bytes, length, take-append, drop-append, leb, le→leb, ok,
  arith, lengths,
}
use spore_peer.Cbor.Decode.{slice_from, get_range}

pub get_range_mid :
    (front mid rest : Bytes)
    → get_range (front ++ (mid ++ rest)) (length front) (length front + length mid) ≡ some mid
unfolding get_range
get_range_mid front mid rest =
    let from : leb (length front) (length front + length mid) ≡ true = le→leb _ _ (omega arith) in
    let to : leb (length front + length mid) (length (front ++ (mid ++ rest))) ≡ true =
      le→leb _ _ (omega lengths) in
    let size : length front + length mid - length front ≡ length mid = omega arith in
    rw (from, to, size, drop-append front (mid ++ rest), take-append mid rest)

pub slice_from_mid : (front rest : Bytes) → slice_from (front ++ rest) (length front) ≡ ok rest
unfolding slice_from
slice_from_mid front rest =
    rw (le→leb (length front) (length (front ++ rest)) (omega lengths), drop-append front rest)

pub get_range_front :
    (mid rest : Bytes) (k : ℕ) → length mid ≡ k → get_range (mid ++ rest) 0 k ≡ some mid
unfolding get_range
get_range_front mid rest k e =
    let to : leb (length mid) (length (mid ++ rest)) ≡ true = le→leb _ _ (omega lengths) in
    let size : length mid - 0 ≡ length mid = omega arith in
    rw (← e, le→leb 0 (length mid) (omega arith), to, size, take-append mid rest)
