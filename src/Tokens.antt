-- ===== src/Tokens.antt =====
-- src/spore_peer.rs, `ct_eq`: the comparison of tokens that does not stop at the first difference.
use Prim.Native.Nat.{bit_or, bit_xor}
use spore_peer.Prelude.{
  ℕ, ◌<◌, ◌≡◌, ◌↔◌, refl, ap, Bool, true, false, ◌&&◌, [], ◌∷◌, Bytes, IsByte, All, length, ◌==◌,
  ltb, ==_iff, Bool-cases, inl, inr, all_below, all_below_sound, if◌then◌else◌, arith, same_bytes,
  same_bytes_iff, same_bytes→eq,
}

-- The differing bits of two texts of one length, as `ct_eq` gathers them.
unfoldable pub diff_bits : ℕ → Bytes → Bytes → ℕ
diff_bits d [] b = d
diff_bits d (x ∷ a) [] = d
diff_bits d (x ∷ a) (y ∷ b) = diff_bits (bit_or d (bit_xor x y)) a b

unfoldable pub ct_eq : Bytes → Bytes → Bool
unfolding diff_bits
ct_eq a b = if length a == length b then diff_bits 0 a b == 0 else false

abbrev same_bool : Bool → Bool → Bool
same_bool true b = b
same_bool false b = if b then false else true

-- What the tables below check of one pair of bytes.
abbrev bits_ok : ℕ → ℕ → Bool
bits_ok x y =
    ltb (bit_xor x y) 256
    && ltb (bit_or x y) 256
    && same_bool (bit_or x y == 0) (x == 0 && y == 0)
    && same_bool (bit_xor x y == 0) (x == y)

bit_tables : all_below (λ x. all_below (bits_ok x) 256) 256 ≡ true
unfolding all_below
bit_tables = refl

bits_of : (x y : ℕ) → x < 256 → y < 256 → bits_ok x y ≡ true
bits_of x y hx hy =
    all_below_sound (bits_ok x) 256 y hy
      (all_below_sound (λ a. all_below (bits_ok a) 256) 256 x hx bit_tables)

xor_lt : (x y : ℕ) → x < 256 → y < 256 → bit_xor x y < 256
xor_lt x y hx hy = ground (arith, bits_of x y hx hy)

or_lt : (x y : ℕ) → x < 256 → y < 256 → bit_or x y < 256
or_lt x y hx hy = ground (arith, bits_of x y hx hy)

or_zero : (x y : ℕ) → x < 256 → y < 256 → (bit_or x y == 0) ≡ (x == 0 && y == 0)
or_zero x y hx hy = ground (arith, bits_of x y hx hy)

xor_zero : (x y : ℕ) → x < 256 → y < 256 → (bit_xor x y == 0) ≡ (x == y)
xor_zero x y hx hy = ground (arith, bits_of x y hx hy)

diff_bits_lem :
    (d : ℕ) (a b : Bytes)
    → d < 256
    → All IsByte a
    → All IsByte b
    → length a ≡ length b
    → (diff_bits d a b == 0) ≡ (d == 0 && same_bytes a b)
unfolding diff_bits
diff_bits_lem d [] [] hd ha hb e = ground arith
diff_bits_lem d [] (y ∷ b) hd ha hb e = absurd (omega arith)
diff_bits_lem d (x ∷ a) [] hd ha hb e = absurd (omega arith)
diff_bits_lem d (x ∷ a) (y ∷ b) hd (hx, ha) (hy, hb) e =
    let v = bit_xor x y in
    let small = xor_lt x y hx hy in
    let rest = diff_bits_lem (bit_or d v) a b (or_lt d v hd small) ha hb (omega arith) in
    ground (arith, rest, or_zero d v hd small, xor_zero x y hx hy)

length-same_bytes : (a b : Bytes) → same_bytes a b ≡ true → length a ≡ length b
length-same_bytes a b h = rw (same_bytes→eq a b h)

-- The comparison of tokens is equality: `ct_eq` answers true exactly on two equal texts.
pub ct_eq_iff : (a b : Bytes) → All IsByte a → All IsByte b → (ct_eq a b ≡ true) ↔ (a ≡ b)
unfolding ct_eq
ct_eq_iff a b ha hb = elim (Bool-cases (length a == length b)) [
  | inl e ↦ rw (e, diff_bits_lem 0 a b (omega arith) ha hb ((==_iff _ _).0 e)) (same_bytes_iff a b)
  | inr e ↦ rw e (λ h. cc, λ h. ground (arith, ap length h))
]
