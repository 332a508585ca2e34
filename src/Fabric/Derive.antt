-- ===== src/Fabric/Derive.antt =====
-- src/fabric.rs: HMAC, HKDF, the fabric handle and the registration token, over the hash function of
-- the sha2 crate.
use Prim.Native.Nat.{bit_xor}
use spore_peer.Prelude.{
  ℕ, zero, suc, ◌+◌, ◌-◌, ◌%◌, ◌≤◌, ◌≡◌, refl, ap, ◌∙◌, [], ◌∷◌, ◌++◌, map, append_assoc, Bytes,
  ascii, length, length-take, take, replicate, ltb, ge→ltb, Bool-cases, inl, inr, ltb→ge,
  if◌then◌else◌, arith, lengths,
}
use spore_peer.Words.{be_bytes}
use spore_peer.Crates.{Hex, Sha256}

abbrev pub label_handle : Bytes
label_handle = ascii "spore/fabric/v1/handle"

abbrev pub label_reg : Bytes
label_reg = ascii "spore/fabric/v1/reg"

-- The key, or its hash where it is longer than a block, in a block of 64 bytes.
abbrev block_key : Sha256 → Bytes → Bytes
block_key sha key =
    let k = (if ltb 64 (length key) then sha.digest key else key) in
    k ++ replicate (64 - length k) 0

unfoldable pub hmac_sha256 : Sha256 → Bytes → Bytes → Bytes
hmac_sha256 sha key input =
    let ipad = map (bit_xor 0x36) (block_key sha key) in
    let opad = map (bit_xor 0x5c) (block_key sha key) in
    sha.digest (opad ++ sha.digest (ipad ++ input))

unfoldable pub hkdf_prk : Sha256 → Bytes → Bytes
hkdf_prk sha ikm = hmac_sha256 sha (replicate 32 0) ikm

-- The loop of `hkdf_expand` over `okm`, `t` and the u8 `counter`; each round adds 32 bytes, so as many
-- rounds as bytes are wanted suffice.
expand_loop : Sha256 → ℕ → Bytes → Bytes → ℕ → Bytes → Bytes → ℕ → Bytes
expand_loop sha zero prk info n okm t counter = okm
expand_loop sha (suc rounds) prk info n okm t counter =
    let t' = hmac_sha256 sha prk (t ++ (info ++ (counter ∷ []))) in
    let rest = expand_loop sha rounds prk info n (okm ++ t') t' ((counter + 1) % 256) in
    if ltb (length okm) n then rest else okm

unfoldable pub hkdf_expand : Sha256 → Bytes → Bytes → ℕ → Bytes
unfolding expand_loop
hkdf_expand sha prk info n = take n (expand_loop sha n prk info n [] [] 1)

-- What the handle is derived for: the label, the epoch big-endian and the session id.
unfoldable pub handle_info : ℕ → Bytes → Bytes
handle_info epoch sid = label_handle ++ (be_bytes 4 epoch ++ sid)

unfoldable pub fabric_handle : Sha256 → Bytes → ℕ → Bytes → Bytes
unfolding handle_info
fabric_handle sha seed epoch sid = hkdf_expand sha (hkdf_prk sha seed) (handle_info epoch sid) 32

unfoldable pub reg_token_hex : Hex → Sha256 → Bytes → Bytes → Bytes → Bytes
reg_token_hex hex sha seed handle server_nonce =
    hex.encode (hmac_sha256 sha seed (label_reg ++ (handle ++ server_nonce)))

pub length-hmac_sha256 :
    (sha : Sha256) (key input : Bytes) → length (hmac_sha256 sha key input) ≡ 32
unfolding hmac_sha256
length-hmac_sha256 sha key input = sha.length-digest _

expand_loop_enough :
    (sha : Sha256) (rounds : ℕ) (prk info : Bytes) (n : ℕ) (okm t : Bytes) (counter : ℕ)
    → n ≤ length okm + rounds
    → n ≤ length (expand_loop sha rounds prk info n okm t counter)
unfolding expand_loop
expand_loop_enough sha zero prk info n okm t counter h = omega arith
expand_loop_enough sha (suc rounds) prk info n okm t counter h =
    elim (Bool-cases (ltb (length okm) n)) [
      | inr e ↦ rw e (ltb→ge _ _ e)
      | inl e ↦ rw e (
          expand_loop_enough sha rounds prk info n _ _ _
            (omega (lengths, length-hmac_sha256 sha prk (t ++ (info ++ (counter ∷ []))))))
    ]

-- The expansion has the length asked for: its loop never stops short.
pub length-hkdf_expand :
    (sha : Sha256) (prk info : Bytes) (n : ℕ) → length (hkdf_expand sha prk info n) ≡ n
unfolding hkdf_expand
length-hkdf_expand sha prk info n = omega (
  arith,
  length-take n (expand_loop sha n prk info n [] [] 1),
  expand_loop_enough sha n prk info n [] [] 1 (omega arith),
)

take_all : (n : ℕ) (b : Bytes) → length b ≡ n → take n b ≡ b
take_all zero [] e = refl
take_all zero (x ∷ b) e = absurd (omega arith)
take_all (suc n) [] e = refl
take_all (suc n) (x ∷ b) e = ap (λ l. x ∷ l) (take_all n b (omega arith))

expand_loop_stop :
    (sha : Sha256) (rounds : ℕ) (prk info : Bytes) (n : ℕ) (okm t : Bytes) (counter : ℕ)
    → n ≤ length okm
    → expand_loop sha rounds prk info n okm t counter ≡ okm
unfolding expand_loop
expand_loop_stop sha zero prk info n okm t counter h = refl
expand_loop_stop sha (suc rounds) prk info n okm t counter h = rw (ge→ltb (length okm) n h)

one_round :
    (sha : Sha256) (prk info : Bytes)
    → hkdf_expand sha prk info 32 ≡ hmac_sha256 sha prk (info ++ (1 ∷ []))
unfolding hkdf_expand
one_round sha prk info =
    let t = hmac_sha256 sha prk (info ++ (1 ∷ [])) in
    let len = length-hmac_sha256 sha prk (info ++ (1 ∷ [])) in
    rw (expand_loop_stop sha 31 prk info 32 t t 2 (omega (arith, len))) (take_all 32 t len)

-- HMAC as RFC 2104 has it for a key of 32 bytes and the blocks of 64 bytes of SHA-256: the key is
-- filled up with zeros, and masked for the inner and for the outer hash.
abbrev pub masked : ℕ → Bytes → Bytes
masked mask key = map (bit_xor mask) (key ++ replicate 32 0)

abbrev pub rfc_hmac : Sha256 → Bytes → Bytes → Bytes
rfc_hmac sha key text = sha.digest (masked 0x5c key ++ sha.digest (masked 0x36 key ++ text))

hmac_sha256_lem :
    (sha : Sha256) (key text : Bytes)
    → length key ≡ 32
    → hmac_sha256 sha key text ≡ rfc_hmac sha key text
unfolding hmac_sha256
hmac_sha256_lem sha key text len = rw (len, hmac_sha256) (rw len refl)

-- Under a salt of zeros the masked keys are the masks.
hkdf_prk_lem :
    (sha : Sha256) (seed : Bytes)
    → hkdf_prk sha seed ≡ sha.digest (replicate 64 0x5c ++ sha.digest (replicate 64 0x36 ++ seed))
unfolding hkdf_prk hmac_sha256
hkdf_prk_lem sha seed = refl

-- A handle is HKDF-SHA256 of RFC 5869 with a salt of zeros and an output of one block: the HMAC of
-- RFC 2104, written out over SHA-256, of the label, the epoch big-endian, the session id and the
-- counter 1, under the key that the hash of the masked zeros and the seed extracts.
pub fabric_handle_lem :
    (sha : Sha256) (seed : Bytes) (epoch : ℕ) (sid : Bytes)
    → fabric_handle sha seed epoch sid
      ≡ rfc_hmac sha
          (sha.digest (replicate 64 0x5c ++ sha.digest (replicate 64 0x36 ++ seed)))
          (label_handle ++ (be_bytes 4 epoch ++ (sid ++ (1 ∷ []))))
unfolding fabric_handle
fabric_handle_lem sha seed epoch sid =
    let key = sha.digest (replicate 64 0x5c ++ sha.digest (replicate 64 0x36 ++ seed)) in
    one_round sha (hkdf_prk sha seed) (handle_info epoch sid)
    ∙ (rw (hkdf_prk_lem sha seed) (hmac_sha256_lem sha key _ (sha.length-digest _))
        ∙ ap (λ (text : Bytes). rfc_hmac sha key text)
            (unfold handle_info in
              ap (λ (b : Bytes). label_handle ++ b) (append_assoc (be_bytes 4 epoch) sid (1 ∷ []))))
