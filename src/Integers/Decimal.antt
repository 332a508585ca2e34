-- ===== src/Integers/Decimal.antt =====
-- A number that is printed with `{}` is read back by `s.parse()`.
use spore_peer.Prelude.{
  ℕ, zero, suc, ◌+◌, ◌-◌, ◌*◌, ◌/◌, ◌%◌, ◌^◌, ◌<◌, ◌≤◌, ◌≡◌, refl, true, false, ap, ◌∙◌, [], ◌∷◌,
  ◌++◌, some, Bool-cases, inl, inr, Bytes, length, length-append, leb, ltb, le→leb, ◌==◌, arith,
}
use spore_peer.Text.{within, decimal, decimal_digits}
use spore_peer.Integers.{digits_uint, parse_uint}

digits_uint-snoc :
    (top a m c : ℕ) (s : Bytes)
    → digits_uint top a s ≡ some m
    → within b'0' b'9' c ≡ true
    → m * 10 + (c - b'0') ≤ top
    → digits_uint top a (s ++ (c ∷ [])) ≡ some (m * 10 + (c - b'0'))
unfolding digits_uint
digits_uint-snoc top a m c [] e digit fits =
    let same : a ≡ m = cc e in rw (same, digit, le→leb _ _ fits) refl
digits_uint-snoc top a m c (x ∷ s) e digit fits = elim (Bool-cases (within b'0' b'9' x)) [
  | inr y ↦ cc (rw (y, digits_uint) at e)
  | inl y ↦ elim (Bool-cases (leb (a * 10 + (x - b'0')) top)) [
    | inr z ↦ cc (rw (y, z, digits_uint) at e)
    | inl z ↦
        rw (y, z)
          (digits_uint-snoc top (a * 10 + (x - b'0')) m c s (rw (y, z, digits_uint) at e) digit
            fits)
  ]
]

-- The numbers that so many digits spell.
abbrev pub bound : ℕ → ℕ
bound zero = 1
bound (suc n) = 10 * bound n

digits_uint-decimal_digits :
    (top fuel n : ℕ) → n < bound fuel → n ≤ top → digits_uint top 0 (decimal_digits fuel n) ≡ some n
unfolding decimal_digits digits_uint
digits_uint-decimal_digits top zero n small fits = ground (arith, small)
digits_uint-decimal_digits top (suc fuel) n small fits = elim (Bool-cases (ltb n 10)) [
  | inl y ↦ rw y (ground (arith, y, fits))
  | inr y ↦
      let back : n / 10 * 10 + (n % 10 + b'0' - b'0') ≡ n = omega arith in
      rw y (
        digits_uint-snoc top 0 (n / 10) (n % 10 + b'0') (decimal_digits fuel (n / 10))
          (digits_uint-decimal_digits top fuel (n / 10) (omega (arith, small))
            (omega (arith, fits)))
          (ground arith) (omega (arith, back, fits))
        ∙ ap some back)
]

length-decimal_digits : (fuel n : ℕ) → 0 < length (decimal_digits (suc fuel) n)
unfolding decimal_digits
length-decimal_digits fuel n = elim (Bool-cases (ltb n 10)) [
  | inl y ↦ rw y (omega arith)
  | inr y ↦
      rw y (omega (arith, length-append (decimal_digits fuel (n / 10)) ((n % 10 + b'0') ∷ [])))
]

-- Digits have no sign before them.
parse_uint-digits :
    (top n : ℕ) (s : Bytes)
    → 0 < length s
    → digits_uint top 0 s ≡ some n
    → parse_uint top s ≡ some n
unfolding parse_uint digits_uint
parse_uint-digits top n [] some_there e = absurd (omega (arith, some_there))
parse_uint-digits top n (c ∷ []) some_there e = e
parse_uint-digits top n (c ∷ d ∷ s) some_there e = elim (Bool-cases (c == b'+')) [
  | inr y ↦ rw y e
  | inl y ↦
      let sign : within b'0' b'9' c ≡ false = ground (arith, y) in cc (rw (sign, digits_uint) at e)
]

-- A 64-bit number that is printed reads back as itself, as a number of any type that it fits.
pub parse_uint-decimal : (top n : ℕ) → n < 2 ^ 64 → n ≤ top → parse_uint top (decimal n) ≡ some n
unfolding decimal
parse_uint-decimal top n word fits =
    parse_uint-digits top n (decimal_digits 20 n) (length-decimal_digits 19 n)
      (digits_uint-decimal_digits top 20 n (omega (arith, word)) fits)
