-- ===== src/Store/Decode.antt =====
-- src/spore_peer.rs, `hex_decode`.
use spore_peer.Prelude.{
  ℕ, ◌+◌, ◌*◌, ◌/◌, ◌%◌, ◌≡◌, refl, ap, Bool, true, false, ◌&&◌, not, [], ◌∷◌, Option, none, some,
  Bytes, IsByte, All, length, ◌==◌, ==_iff, if◌then◌else◌, ok, panic, ok_or, Try, refused, ◌>>=◌,
  all_below, all_below_sound, arith,
}
use spore_peer.Text.{is_cont, hex_digit, digit_char, lower_hex}

-- Whether the byte at the front begins a character or nothing stands there: `is_char_boundary`.
abbrev pub at_boundary : Bytes → Bool
at_boundary [] = true
at_boundary (c ∷ s) = not (is_cont c)

-- `u8::from_str_radix(pair, 16).ok()`, which takes a sign `+` before one digit.
unfoldable pub from_pair : ℕ → ℕ → Option ℕ
from_pair c d = elim (hex_digit d) [
  | none ↦ none
  | some l ↦
      if c == b'+'
      then some l
      else (elim (hex_digit c) [ none ↦ none | some h ↦ some (16 * h + l) ])
]

-- The pairs from the left; a slice that cuts a character panics, and an ill-formed pair ends the
-- `collect` before the slices behind it.
unfoldable pub decode_chunks : Bytes → Try Bytes
unfolding from_pair
decode_chunks [] = ok []
decode_chunks (c ∷ []) = refused
decode_chunks (c ∷ d ∷ s) =
    let rest = decode_chunks s in
    if at_boundary (c ∷ d ∷ s) && at_boundary s
    then (ok_or (from_pair c d) tt >>= λ x. rest >>= λ xs. ok (x ∷ xs))
    else panic

unfoldable pub hex_decode : Bytes → Try Bytes
unfolding decode_chunks
hex_decode s = if length s % 2 == 0 then decode_chunks s else refused

is_some : Option ℕ → ℕ → Bool
is_some none x = false
is_some (some y) x = y == x

is_some→eq : (o : Option ℕ) (x : ℕ) → is_some o x ≡ true → o ≡ some x
unfolding is_some
is_some→eq none x h = cc
is_some→eq (some y) x h = ap some ((==_iff y x).0 h)

-- One byte, its two digits and what is behind them.
abbrev reads_back : ℕ → Bool
reads_back x =
    let c = digit_char (x / 16) in
    let d = digit_char (x % 16) in not (is_cont c) && not (is_cont d) && is_some (from_pair c d) x

digit_table : all_below reads_back 256 ≡ true
unfolding all_below digit_char hex_digit from_pair is_some
digit_table = refl

byte_digits :
    (x : ℕ)
    → IsByte x
    → (is_cont (digit_char (x / 16)) ≡ false)
      × (from_pair (digit_char (x / 16)) (digit_char (x % 16)) ≡ some x)
byte_digits x h = ground (
  arith,
  all_below_sound reads_back 256 x h digit_table,
  is_some→eq (from_pair (digit_char (x / 16)) (digit_char (x % 16))) x,
)

hex_boundary : (b : Bytes) → All IsByte b → at_boundary (lower_hex b) ≡ true
unfolding lower_hex
hex_boundary [] h = refl
hex_boundary (x ∷ b) (hx, hb) = rw ((byte_digits x hx).0) refl

decode_chunks-lower_hex : (b : Bytes) → All IsByte b → decode_chunks (lower_hex b) ≡ ok b
unfolding decode_chunks lower_hex
decode_chunks-lower_hex [] h = refl
decode_chunks-lower_hex (x ∷ b) (hx, hb) =
    let (start, pair) = byte_digits x hx in
    rw (start, hex_boundary b hb, pair, decode_chunks-lower_hex b hb) refl

pub length-lower_hex : (b : Bytes) → length (lower_hex b) ≡ 2 * length b
unfolding lower_hex
length-lower_hex [] = refl
length-lower_hex (x ∷ b) = omega (arith, length-lower_hex b)

-- The hexadecimal text of any bytes decodes to these bytes, and without a panic.
pub hex_decode-lower_hex : (b : Bytes) → All IsByte b → hex_decode (lower_hex b) ≡ ok b
unfolding hex_decode
hex_decode-lower_hex b h =
    let even : length (lower_hex b) % 2 ≡ 0 = omega (arith, length-lower_hex b) in
    rw (even, decode_chunks-lower_hex b h) refl
