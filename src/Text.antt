-- ===== src/Text.antt =====
-- What the code uses of texts: UTF-8 validity and hexadecimal, of the Rust standard library
-- (`str::from_utf8`, `u8::from_str_radix`, `str::get` boundaries, `to_lowercase` on ASCII).
use spore_peer.Prelude.{
  ℕ, zero, suc, ◌+◌, ◌-◌, ◌*◌, ◌/◌, ◌%◌, ◌<◌, ◌≡◌, refl, ap, ◌∙◌, inl, inr, ◌++◌, map, length, drop,
  same_bytes, Bool, true, false, ◌&&◌, [], ◌∷◌, Option, none, some, Option-cases, Bytes, IsByte,
  All, ltb, leb, ◌==◌, ==_iff, if◌then◌else◌, all_below, all_below_sound, arith,
}

-- `c` lies in the range `lo..=hi`.
abbrev pub within : ℕ → ℕ → ℕ → Bool
within lo hi c = leb lo c && leb c hi

-- A continuation byte.
abbrev pub is_cont : ℕ → Bool
is_cont c = within 0x80 0xbf c

-- The second byte of a sequence of three or four that begins with `a`: no overlong form, no
-- surrogate, nothing above U+10FFFF.
abbrev pub second_ok : ℕ → ℕ → Bool
second_ok a b =
    if a == 0xe0
    then within 0xa0 0xbf b
    else (if a == 0xed
        then within 0x80 0x9f b
        else (if a == 0xf0
            then within 0x90 0xbf b
            else (if a == 0xf4 then within 0x80 0x8f b else is_cont b)))

-- `str::from_utf8(b).is_ok()`.
unfoldable pub is_utf8 : Bytes → Bool
is_utf8 [] = true
is_utf8 (a ∷ []) = ltb a 0x80
is_utf8 (a ∷ b ∷ []) =
    let one = is_utf8 (b ∷ []) in if ltb a 0x80 then one else within 0xc2 0xdf a && is_cont b
is_utf8 (a ∷ b ∷ c ∷ []) =
    let one = is_utf8 (b ∷ c ∷ []) in
    let two = is_utf8 (c ∷ []) in
    if ltb a 0x80
    then one
    else (if ltb a 0xe0
        then within 0xc2 0xdf a && is_cont b && two
        else within 0xe0 0xef a && second_ok a b && is_cont c)
is_utf8 (a ∷ b ∷ c ∷ d ∷ rest) =
    let one = is_utf8 (b ∷ c ∷ d ∷ rest) in
    let two = is_utf8 (c ∷ d ∷ rest) in
    let three = is_utf8 (d ∷ rest) in
    let four = is_utf8 rest in
    if ltb a 0x80
    then one
    else (if ltb a 0xe0
        then within 0xc2 0xdf a && is_cont b && two
        else (if ltb a 0xf0
            then second_ok a b && is_cont c && three
            else within 0xf0 0xf4 a && second_ok a b && is_cont c && is_cont d && four))

-- The value of a hexadecimal digit, of either case.
unfoldable pub hex_digit : ℕ → Option ℕ
hex_digit c =
    if within b'0' b'9' c
    then some (c - b'0')
    else (if within b'a' b'f' c
        then some (c - b'a' + 10)
        else (if within b'A' b'F' c then some (c - b'A' + 10) else none))

-- A lower-case hexadecimal digit.
unfoldable pub digit_char : ℕ → ℕ
digit_char d = if ltb d 10 then d + b'0' else d - 10 + b'a'

-- Two lower-case digits for each byte.
unfoldable pub lower_hex : Bytes → Bytes
lower_hex [] = []
lower_hex (b ∷ bs) = digit_char (b / 16) ∷ digit_char (b % 16) ∷ lower_hex bs

-- Pairs of digits of either case.
unfoldable pub from_hex : Bytes → Option Bytes
from_hex [] = some []
from_hex (c ∷ []) = none
from_hex (c ∷ d ∷ rest) = elim (hex_digit c) [
  | none ↦ none
  | some h ↦ elim (hex_digit d) [
    | none ↦ none
    | some l ↦ elim (from_hex rest) [ none ↦ none | some bs ↦ some ((16 * h + l) ∷ bs) ]
  ]
]

reads_digit : ℕ → Bool
reads_digit d = elim (hex_digit (digit_char d)) [ none ↦ false | some e ↦ e == d ]

digits_read : all_below reads_digit 16 ≡ true
unfolding all_below digit_char hex_digit reads_digit
digits_read = refl

hex_digit-digit_char : (d : ℕ) → d < 16 → hex_digit (digit_char d) ≡ some d
unfolding reads_digit
hex_digit-digit_char d h = elim (Option-cases (hex_digit (digit_char d))) [
  | inl y ↦ cc (rw (reads_digit, y) at (all_below_sound reads_digit 16 d h digits_read))
  | inr (e, y) ↦
      y
      ∙ ap some
          ((==_iff e d).0 (rw (reads_digit, y) at (all_below_sound reads_digit 16 d h digits_read)))
]

-- The crate's decoding reads back its encoding of bytes.
pub from_hex-lower_hex : (b : Bytes) → All IsByte b → from_hex (lower_hex b) ≡ some b
unfolding from_hex lower_hex
from_hex-lower_hex [] h = refl
from_hex-lower_hex (x ∷ b) (hx, hb) =
    let byte : 16 * (x / 16) + x % 16 ≡ x = omega arith in
    rw
      (
        hex_digit-digit_char (x / 16) (omega arith),
        hex_digit-digit_char (x % 16) (omega arith),
        from_hex-lower_hex b hb,
        byte,
        from_hex,
      )
      refl

-- Decimal digits of a number, as `{}` prints it; `fuel` bounds their count.
unfoldable pub decimal_digits : ℕ → ℕ → Bytes
decimal_digits zero n = []
decimal_digits (suc fuel) n =
    let more = decimal_digits fuel (n / 10) ++ ((n % 10 + b'0') ∷ []) in
    if ltb n 10 then (n + b'0') ∷ [] else more

-- A 64-bit number has 20 digits at most.
unfoldable pub decimal : ℕ → Bytes
unfolding decimal_digits
decimal n = decimal_digits 20 n

unfoldable pub is_ascii : Bytes → Bool
is_ascii [] = true
is_ascii (c ∷ s) = ltb c 0x80 && is_ascii s

unfoldable pub lower_char : ℕ → ℕ
lower_char c = if within b'A' b'Z' c then c + 32 else c

-- `s.to_lowercase()`. What Unicode does to a text that is not ASCII is the parameter `other`.
unfoldable pub to_lowercase : (Bytes → Bytes) → Bytes → Bytes
to_lowercase other s = if is_ascii s then map lower_char s else other s

-- `s.ends_with(tail)`.
unfoldable pub ends_with : Bytes → Bytes → Bool
ends_with s tail = leb (length tail) (length s) && same_bytes (drop (length s - length tail) s) tail
