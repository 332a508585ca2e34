-- ===== src/Peer/Fetch.antt =====
-- src/spore_peer.rs: the frames of the legacy fetch (`frame_ok`, `frame_err`) and the client's
-- reading of them (`parse_fetch_response`).
use spore_peer.Prelude.{
  ℕ, ◌≡◌, ◌≢◌, ◌⊎◌, refl, sym, ap, ◌∙◌, [], ◌∷◌, Bool-cases, inl, inr, Bytes, ascii, length, ◌==◌,
  same_bytes, same_bytes_refl, same_bytes→eq, same_bytes_iff, if◌then◌else◌, Result, ok, err, panic,
  Try, ◌>>=◌, arith,
}
use spore_peer.Crates.{Crates}
use spore_peer.Store.Decode.{hex_decode}

abbrev pub status_ok : ℕ
status_ok = 0

abbrev pub status_err : ℕ
status_err = 1

unfoldable pub frame_ok : Bytes → Bytes
frame_ok body = status_ok ∷ body

unfoldable pub frame_err : Bytes → Bytes
frame_err msg = status_err ∷ msg

abbrev pub tampered : Bytes
tampered = ascii "body sha256 does not match cid (tampered)"

-- The hash that is expected.
unfoldable pub expected_hash : Try Bytes → Result Bytes Bytes
expected_hash (ok raw) = if length raw == 32 then ok raw else err (ascii "bad cid hex")
expected_hash (err u) = err (ascii "bad cid hex")
expected_hash panic = panic

-- The `match` on the status byte, for a frame that is no legacy body.
unfoldable pub status_body : Crates → Bytes → Bytes → Result Bytes Bytes
status_body c expected [] = err tampered
status_body c expected (s ∷ body) =
    if s == status_ok
    then (if same_bytes (c.sha.digest body) expected then ok body else err tampered)
    else (if s == status_err then err (c.from_utf8_lossy body) else err tampered)

unfoldable pub classify : Crates → Bytes → Bytes → Result Bytes Bytes
unfolding status_body
classify c resp expected =
    if same_bytes (c.sha.digest resp) expected then ok resp else status_body c expected resp

unfoldable pub parse_fetch_response : Crates → Bytes → Bytes → Result Bytes Bytes
unfolding expected_hash classify
parse_fetch_response c resp cid =
    expected_hash (hex_decode cid) >>= λ expected. classify c resp expected

module _ (c : Crates) where
  status_body_ok :
      (expected resp body : Bytes)
      → status_body c expected resp ≡ ok body
      → (c.sha.digest body ≡ expected) × ((resp ≡ body) ⊎ (resp ≡ frame_ok body))
  unfolding status_body frame_ok
  status_body_ok expected [] body e = cc
  status_body_ok expected (s ∷ rest) body e =
      ground (arith, e, same_bytes_iff (c.sha.digest rest) expected)

  classify_ok :
      (expected resp body : Bytes)
      → classify c resp expected ≡ ok body
      → (c.sha.digest body ≡ expected) × ((resp ≡ body) ⊎ (resp ≡ frame_ok body))
  unfolding classify
  classify_ok expected resp body e = elim (Bool-cases (same_bytes (c.sha.digest resp) expected)) [
    | inl y ↦
        let same : resp ≡ body = cc (rw y at e) in
        (ap c.sha.digest (sym same) ∙ same_bytes→eq _ _ y, inl same)
    | inr y ↦ status_body_ok expected resp body (rw y at e)
  ]

  parse_decoded :
      (d : Try Bytes) (resp body : Bytes)
      → (expected_hash d >>= λ expected. classify c resp expected) ≡ ok body
      → (d ≡ ok (c.sha.digest body)) × ((resp ≡ body) ⊎ (resp ≡ frame_ok body))
  unfolding expected_hash
  parse_decoded (ok raw) resp body e = elim (Bool-cases (length raw == 32)) [
    | inl y ↦ let (hash, shape) = classify_ok raw resp body (rw y at e) in (ap ok (sym hash), shape)
    | inr y ↦ cc (rw y at e)
  ]
  parse_decoded (err u) resp body e = cc
  parse_decoded panic resp body e = cc

  -- A body that a client takes from a response has the hash that was asked for, and it is the whole
  -- response or what stands behind the status byte 0: nothing else is ever taken for the body.
  pub parse_fetch_response_ok :
      (resp cid body : Bytes)
      → parse_fetch_response c resp cid ≡ ok body
      → (hex_decode cid ≡ ok (c.sha.digest body)) × ((resp ≡ body) ⊎ (resp ≡ frame_ok body))
  unfolding parse_fetch_response
  parse_fetch_response_ok resp cid body e = parse_decoded (hex_decode cid) resp body e

  -- The frame of a body reads back as this body, under its hash, where the frame as a whole does
  -- not have the same hash.
  pub parse_fetch_response-frame_ok :
      (cid body : Bytes)
      → hex_decode cid ≡ ok (c.sha.digest body)
      → c.sha.digest (frame_ok body) ≢ c.sha.digest body
      → parse_fetch_response c (frame_ok body) cid ≡ ok body
  unfolding parse_fetch_response expected_hash classify status_body frame_ok
  parse_fetch_response-frame_ok cid body d ne =
      elim (Bool-cases (same_bytes (c.sha.digest (status_ok ∷ body)) (c.sha.digest body))) [
        | inl y ↦ absurd (ne (same_bytes→eq _ _ y))
        | inr y ↦ rw (d, c.sha.length-digest body, y, same_bytes_refl (c.sha.digest body)) refl
      ]
