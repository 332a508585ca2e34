-- ===== src/Integers.antt =====
-- `s.parse()` into an unsigned integer, as src/spore_peer.rs reads ports and the numbers of the
-- command line: a sign `+`, then digits, up to the largest value of the type.
pub mod Decimal
use spore_peer.Prelude.{
  ℕ, ◌+◌, ◌-◌, ◌*◌, [], ◌∷◌, Option, none, some, Bytes, leb, ◌==◌, if◌then◌else◌,
}
use spore_peer.Text.{within}

-- The digits, with the value so far.
unfoldable pub digits_uint : ℕ → ℕ → Bytes → Option ℕ
digits_uint top n [] = some n
digits_uint top n (c ∷ s) =
    let m = n * 10 + (c - b'0') in
    let rest = digits_uint top m s in
    if within b'0' b'9' c then (if leb m top then rest else none) else none

unfoldable pub parse_uint : ℕ → Bytes → Option ℕ
unfolding digits_uint
parse_uint top [] = none
parse_uint top (c ∷ []) = digits_uint top 0 (c ∷ [])
parse_uint top (c ∷ d ∷ s) =
    if c == b'+' then digits_uint top 0 (d ∷ s) else digits_uint top 0 (c ∷ d ∷ s)
