-- ===== src/Frames.antt =====
-- src/p2p.rs, `write_frame` and `read_frame`, over the bytes of a connection.
use spore_peer.Prelude.{
  ℕ, ◌*◌, ◌%◌, ◌^◌, ◌<◌, ◌≤◌, ◌≡◌, refl, sym, ap, ◌∙◌, subst, ◌||◌, ◌++◌, append_assoc, Bytes,
  IsByte, All, All-take, length, take, drop, take-append, drop-append, take-append-drop,
  length-take, ltb, leb, leb→le, le→leb, ◌==◌, Bool-cases, inl, inr, if◌then◌else◌, Result, ok, err,
  panic, ◌>>=◌, arith, lengths,
}
use spore_peer.Words.{
  le_bytes, from_le_bytes, length-le_bytes, from_le_bytes-le_bytes, le_bytes-from_le_bytes,
}

-- `UnexpectedEof` and `InvalidData`.
pub data FrameError : Type 0 where
  short_read bad_length : FrameError

-- The bytes that `write_frame` puts on the connection; the length is cast to a u32.
unfoldable pub write_frame : Bytes → Bytes
write_frame payload = le_bytes 4 (length payload % 2 ^ 32) ++ payload

-- `read_exact`, on what the connection still carries: the bytes and the rest.
unfoldable pub read_exact : ℕ → Bytes → Result FrameError (Bytes × Bytes)
read_exact n s = if leb n (length s) then ok (take n s, drop n s) else err short_read

abbrev pub max_frame : ℕ
max_frame = 192 * 1024 * 1024

unfoldable pub read_payload : ℕ → Bytes → Result FrameError (Bytes × Bytes)
unfolding read_exact
read_payload len s = if len == 0 || ltb max_frame len then err bad_length else read_exact len s

unfoldable pub read_frame : Bytes → Result FrameError (Bytes × Bytes)
unfolding read_exact read_payload
read_frame s = read_exact 4 s >>= λ (head, rest). read_payload (from_le_bytes head) rest

read_exact-append :
    (n : ℕ) (s rest : Bytes) → length s ≡ n → read_exact n (s ++ rest) ≡ ok (s, rest)
unfolding read_exact
read_exact-append n s rest e =
    rw
      (
        ← e,
        le→leb (length s) (length (s ++ rest)) (omega lengths),
        take-append s rest,
        drop-append s rest,
      )
      refl

read_payload-append :
    (s rest : Bytes)
    → 0 < length s
    → length s ≤ max_frame
    → read_payload (length s) (s ++ rest) ≡ ok (s, rest)
unfolding read_payload
read_payload-append s rest pos small = ground (arith, read_exact-append (length s) s rest refl)

-- A frame is read back, with what follows it left on the connection, whenever its payload is not
-- empty and within the cap.
pub read_frame-write_frame :
    (payload rest : Bytes)
    → 0 < length payload
    → length payload ≤ max_frame
    → read_frame (write_frame payload ++ rest) ≡ ok (payload, rest)
unfolding read_frame write_frame
read_frame-write_frame payload rest pos small =
    let n = length payload % 2 ^ 32 in
    let same : n ≡ length payload = omega arith in
    rw (append_assoc (le_bytes 4 n) payload rest) (
      rw
        (
          read_exact-append 4 (le_bytes 4 n) (payload ++ rest) (length-le_bytes 4 n),
          from_le_bytes-le_bytes 4 n (omega arith),
          same,
        )
        (read_payload-append payload rest pos small))

-- The connection carries the frame of the payload and the rest, and the payload is neither empty nor
-- beyond the cap.
pub record IsFramed (s payload rest : Bytes) : Type 0 where
  pub framed : s ≡ write_frame payload ++ rest
  pub some_bytes : 0 < length payload
  pub capped : length payload ≤ max_frame

read_exact_ok : (n : ℕ) (s a b : Bytes) → read_exact n s ≡ ok (a, b) → (length a ≡ n) × (a ++ b ≡ s)
unfolding read_exact
read_exact_ok n s a b e = elim (Bool-cases (leb n (length s))) [
  | inr y ↦ cc (rw y at e)
  | inl y ↦
      let front : take n s ≡ a = cc (rw y at e) in
      let back : drop n s ≡ b = cc (rw y at e) in
      rw (← front, ← back)
        (omega (arith, length-take n s, leb→le n (length s) y), take-append-drop n s)
]

read_payload_ok :
    (len : ℕ) (s payload rest : Bytes)
    → read_payload len s ≡ ok (payload, rest)
    → (length payload ≡ len) × (payload ++ rest ≡ s) × (0 < len) × (len ≤ max_frame)
unfolding read_payload
read_payload_ok len s payload rest e = ground (arith, e, read_exact_ok len s payload rest)

read_parts_ok :
    (s payload rest : Bytes) (r : Result FrameError (Bytes × Bytes))
    → All IsByte s
    → read_exact 4 s ≡ r
    → (r >>= λ (head, tail). read_payload (from_le_bytes head) tail) ≡ ok (payload, rest)
    → IsFramed s payload rest
unfolding write_frame
read_parts_ok s payload rest (ok (head, tail)) bytes h e =
    let (len, whole) = read_exact_ok 4 s head tail h in
    let (size, behind, pos, cap) = read_payload_ok (from_le_bytes head) tail payload rest e in
    let front : take 4 (head ++ tail) ≡ head =
      subst (λ n. take n (head ++ tail) ≡ head) len (take-append head tail) in
    let head_bytes : All IsByte head =
      subst (All IsByte) (ap (take 4) (sym whole) ∙ front) (All-take IsByte 4 s bytes) in
    let word : le_bytes 4 (from_le_bytes head) ≡ head =
      subst (λ n. le_bytes n (from_le_bytes head) ≡ head) len
        (le_bytes-from_le_bytes head head_bytes) in
    let cast : length payload % 2 ^ 32 ≡ from_le_bytes head = omega (arith, size, cap) in
    record {
      framed =
          rw (cast, word)
            (sym (append_assoc head payload rest ∙ (ap (λ x. head ++ x) behind ∙ whole)));
      some_bytes = omega (arith, size, pos);
      capped = omega (arith, size, cap);
    }
read_parts_ok s payload rest (err x) bytes h e = cc
read_parts_ok s payload rest panic bytes h e = cc

-- What `read_frame` takes off a connection had been framed: of the bytes that were there, the front is
-- the frame of the payload and the rest is left, and the payload is neither empty nor beyond the cap.
pub read_frame_ok :
    (s payload rest : Bytes)
    → All IsByte s
    → read_frame s ≡ ok (payload, rest)
    → IsFramed s payload rest
unfolding read_frame
read_frame_ok s payload rest bytes e = read_parts_ok s payload rest (read_exact 4 s) bytes refl e

read_tail-shorter :
    (s payload rest : Bytes) (r : Result FrameError (Bytes × Bytes))
    → read_exact 4 s ≡ r
    → (r >>= λ (head, tail). read_payload (from_le_bytes head) tail) ≡ ok (payload, rest)
    → length rest < length s
read_tail-shorter s payload rest (ok (head, tail)) h e =
    let (len, whole) = read_exact_ok 4 s head tail h in
    let (size, behind, pos, cap) = read_payload_ok (from_le_bytes head) tail payload rest e in
    rw (← whole, ← behind) (omega (lengths, len))
read_tail-shorter s payload rest (err x) h e = cc
read_tail-shorter s payload rest panic h e = cc

-- What is left behind a frame is shorter.
pub read_frame-shorter :
    (s payload rest : Bytes) → read_frame s ≡ ok (payload, rest) → length rest < length s
unfolding read_frame
read_frame-shorter s payload rest e = read_tail-shorter s payload rest (read_exact 4 s) refl e
