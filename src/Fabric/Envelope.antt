-- ===== src/Fabric/Envelope.antt =====
-- src/fabric.rs, `Envelope`, `marshal_envelope` and `parse_envelope`. A fixed-size array is a byte
-- string; `IsEnvelope` states its size.
use spore_peer.Prelude.{
  ℕ, zero, suc, ◌+◌, ◌≡◌, refl, sym, ap, Bool, true, false, ◌||◌, not, [], ◌∷◌, ◌++◌, append_assoc,
  Bytes, IsByte, All, All-take, All-drop, ascii, length, take, drop, take-append, drop-append,
  take-append-drop, length-take, length-drop, ◌==◌, ==_iff, Bool-cases, inl, inr, if◌then◌else◌,
  Result, ok, err, arith, lengths,
}
use mathlib.Core.Path.{ap₂}
use spore_peer.Words.{
  IsU64, le_bytes, from_le_bytes, length-le_bytes, from_le_bytes-le_bytes, le_bytes-from_le_bytes,
  from_le_bytes-lt,
}
use spore_peer.Text.{decimal}

abbrev pub envelope_v1 : ℕ
envelope_v1 = 1

abbrev pub pointer_len : ℕ
pointer_len = 74

abbrev pub envelope_len : ℕ
envelope_len = 1 + 32 + pointer_len + 8

pub record Envelope : Type 0 where
  pub handle : Bytes
  pub pointer : Bytes
  pub received_at : ℕ

-- version | handle | pointer | received_at, little-endian.
unfoldable pub marshal_envelope : Envelope → Bytes
marshal_envelope e = envelope_v1 ∷ (e.handle ++ (e.pointer ++ le_bytes 8 e.received_at))

-- `p[0] != 1 || p[1] != 0`.
abbrev pub bad_header : Bytes → Bool
bad_header (a ∷ b ∷ rest) = not (a == 1) || not (b == 0)
bad_header _ = true

-- `b[0]`, of a slice that is not empty.
abbrev pub first_or : Bytes → ℕ
first_or [] = 0
first_or (a ∷ rest) = a

-- The fields cut out of 115 bytes.
unfoldable pub envelope_slices : Bytes → Envelope
envelope_slices b = record {
  handle = take 32 (drop 1 b);
  pointer = take pointer_len (drop 33 b);
  received_at = from_le_bytes (drop (33 + pointer_len) b);
}

bad_length : ℕ → Bytes
bad_length n =
    ascii "400 bad envelope length " ++ (decimal n ++ (ascii " != " ++ decimal envelope_len))

bad_version : ℕ → Bytes
bad_version v = ascii "400 bad envelope version " ++ decimal v

unfoldable pub bad_pointer : Bytes
bad_pointer = ascii "400 bad pointer payload header"

unfoldable pub parse_envelope : Bytes → Result Bytes Envelope
unfolding bad_length bad_version bad_pointer
parse_envelope b =
    if length b == envelope_len
    then (if first_or b == envelope_v1
        then (if bad_header (envelope_slices b).pointer
            then err bad_pointer
            else ok (envelope_slices b))
        else err (bad_version (first_or b)))
    else err (bad_length (length b))

-- The sizes of the fields and the pointer's header.
pub record IsEnvelope (e : Envelope) : Type 0 where
  pub handle_len : length e.handle ≡ 32
  pub handle_bytes : All IsByte e.handle
  pub pointer_size : length e.pointer ≡ pointer_len
  pub pointer_bytes : All IsByte e.pointer
  pub pointer_header : bad_header e.pointer ≡ false
  pub received : IsU64 e.received_at

pub length-marshal_envelope :
    (e : Envelope) → IsEnvelope e → length (marshal_envelope e) ≡ envelope_len
unfolding marshal_envelope
length-marshal_envelope e h =
    omega (lengths, length-le_bytes 8 e.received_at, h.handle_len, h.pointer_size)

take-append_eq : (n : ℕ) (xs ys : Bytes) → length xs ≡ n → take n (xs ++ ys) ≡ xs
take-append_eq n xs ys e = rw (← e) (take-append xs ys)

drop-append_eq : (n : ℕ) (xs ys : Bytes) → length xs ≡ n → drop n (xs ++ ys) ≡ ys
drop-append_eq n xs ys e = rw (← e) (drop-append xs ys)

module _ (e : Envelope) (h : IsEnvelope e) where
  marshal_handle : take 32 (drop 1 (marshal_envelope e)) ≡ e.handle
  unfolding marshal_envelope
  marshal_handle = take-append_eq 32 e.handle _ h.handle_len

  marshal_tail : drop 33 (marshal_envelope e) ≡ e.pointer ++ le_bytes 8 e.received_at
  unfolding marshal_envelope
  marshal_tail = drop-append_eq 32 e.handle _ h.handle_len

  marshal_pointer : take pointer_len (drop 33 (marshal_envelope e)) ≡ e.pointer
  marshal_pointer = rw marshal_tail (take-append_eq pointer_len e.pointer _ h.pointer_size)

  marshal_time : from_le_bytes (drop (33 + pointer_len) (marshal_envelope e)) ≡ e.received_at
  unfolding marshal_envelope
  marshal_time =
      let front : length (e.handle ++ e.pointer) ≡ 106 =
        omega (lengths, h.handle_len, h.pointer_size) in
      rw
        (← append_assoc e.handle e.pointer (le_bytes 8 e.received_at), drop-append_eq 106 _ _ front)
        (from_le_bytes-le_bytes 8 e.received_at h.received)

  marshal_version : first_or (marshal_envelope e) ≡ envelope_v1
  unfolding marshal_envelope
  marshal_version = refl

-- An envelope reads back from its bytes: its handle is 32 bytes, its pointer 74 bytes with the header
-- of version 1, and its time a 64-bit word.
pub parse_envelope-marshal_envelope :
    (e : Envelope) → IsEnvelope e → parse_envelope (marshal_envelope e) ≡ ok e
unfolding parse_envelope envelope_slices
parse_envelope-marshal_envelope e h =
    rw (length-marshal_envelope e h, marshal_version e h, marshal_pointer e h)
      (rw (h.pointer_header, marshal_handle e h, marshal_time e h))

take-drop_bytes : (n : ℕ) (b : Bytes) → All IsByte b → All IsByte (take n b) × All IsByte (drop n b)
take-drop_bytes n b h = (All-take IsByte n b h, All-drop IsByte n b h)

slices-IsEnvelope :
    (b : Bytes)
    → All IsByte b
    → length b ≡ envelope_len
    → bad_header (envelope_slices b).pointer ≡ false
    → IsEnvelope (envelope_slices b)
unfolding envelope_slices
slices-IsEnvelope b hb len hdr =
    let tail : length (drop 107 b) ≡ 8 = omega (arith, length-drop 107 b) in
    record {
      handle_len = omega (arith, length-take 32 (drop 1 b), length-drop 1 b);
      handle_bytes = All-take IsByte 32 (drop 1 b) (All-drop IsByte 1 b hb);
      pointer_size = omega (arith, length-take 74 (drop 33 b), length-drop 33 b);
      pointer_bytes = All-take IsByte 74 (drop 33 b) (All-drop IsByte 33 b hb);
      pointer_header = hdr;
      received = rw tail at (from_le_bytes-lt (drop 107 b) (All-drop IsByte 107 b hb));
    }

drop-drop : (n m : ℕ) (b : Bytes) → drop n (drop m b) ≡ drop (m + n) b
drop-drop n zero b = ap (λ (k : ℕ). drop k b) (omega arith)
drop-drop zero (suc m) [] = let e : suc m + 0 ≡ suc m = omega arith in rw e
drop-drop (suc n) (suc m) [] = let e : suc m + suc n ≡ suc (m + suc n) = omega arith in rw e
drop-drop n (suc m) (x ∷ b) =
    let e : suc m + n ≡ suc (m + n) = omega arith in rw e (drop-drop n m b)

marshal-slices :
    (b : Bytes)
    → All IsByte b
    → length b ≡ envelope_len
    → first_or b ≡ envelope_v1
    → marshal_envelope (envelope_slices b) ≡ b
unfolding marshal_envelope envelope_slices
marshal-slices [] hb len v = absurd (omega arith)
marshal-slices (x ∷ b) hb len v =
    let tail : length (drop 106 b) ≡ 8 = omega (arith, length-drop 106 b) in
    let time = le_bytes-from_le_bytes (drop 106 b) (All-drop IsByte 106 b hb.1) in
    let pointer = take-append-drop 74 (drop 32 b) in
    rw (rw tail at time) (
      ap₂ (λ (a : ℕ) (l : Bytes). a ∷ l) (sym v)
        (rw (rw (drop-drop 74 32 b) at pointer) (take-append-drop 32 b)))

parsed_version :
    (b : Bytes) (e : Envelope)
    → length b ≡ envelope_len
    → (if first_or b == envelope_v1
        then (if bad_header (envelope_slices b).pointer
            then err bad_pointer
            else ok (envelope_slices b))
        else err (bad_version (first_or b)))
      ≡ ok e
    → (length b ≡ envelope_len)
      × (first_or b ≡ envelope_v1)
      × (bad_header (envelope_slices b).pointer ≡ false)
      × (e ≡ envelope_slices b)
parsed_version b e len h = ground arith

-- What a successful parse has checked.
parsed :
    (b : Bytes) (e : Envelope)
    → parse_envelope b ≡ ok e
    → (length b ≡ envelope_len)
      × (first_or b ≡ envelope_v1)
      × (bad_header (envelope_slices b).pointer ≡ false)
      × (e ≡ envelope_slices b)
unfolding parse_envelope
parsed b e h = elim (Bool-cases (length b == envelope_len)) [
  | inr n ↦ cc (rw n at h)
  | inl y ↦ parsed_version b e ((==_iff _ _).0 y) (rw y at h)
]

-- What parses is an envelope, and its bytes are the ones that were parsed: the two functions are
-- inverse to one another on the byte strings that `parse_envelope` accepts.
pub marshal_envelope-parse_envelope :
    (b : Bytes) (e : Envelope)
    → All IsByte b
    → parse_envelope b ≡ ok e
    → IsEnvelope e × (marshal_envelope e ≡ b)
marshal_envelope-parse_envelope b e hb h =
    let (len, version, header, same) = parsed b e h in
    rw same (slices-IsEnvelope b hb len header, marshal-slices b hb len version)
