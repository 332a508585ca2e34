-- ===== src/Store/Laws.antt =====
-- The directory of the body store of src/spore_peer.rs under `store_body`.
use spore_peer.Prelude.{
  ℕ, ◌≡◌, ◌≢◌, refl, sym, ap, ◌∙◌, [], ◌∷◌, ◌++◌, append_assoc, some, Bytes, ascii, length, take,
  drop, take-append, length-append, ok, arith,
}
use spore_peer.Crates.{Crates}
use spore_peer.Dict.{lookup}
use spore_peer.Store.Decode.{hex_decode, hex_decode-lower_hex}
use spore_peer.Store.Files.{File, Hold, body_name, part_name, cid_of}

-- Every body of the directory is named by its hash.
abbrev pub IsHold : Crates → Hold → Type 0
IsHold c hold =
    (cid_hex : Bytes) (file : File)
    → lookup (body_name cid_hex) hold ≡ some file
    → cid_hex ≡ cid_of c file.content

abbrev last_byte : Bytes → ℕ
last_byte [] = 0
last_byte (x ∷ []) = x
last_byte (x ∷ y ∷ s) = last_byte (y ∷ s)

last_byte-append : (s : Bytes) (y : ℕ) (t : Bytes) → last_byte (s ++ (y ∷ t)) ≡ last_byte (y ∷ t)
last_byte-append [] y t = refl
last_byte-append (x ∷ []) y t = refl
last_byte-append (x ∷ x' ∷ s) y t = last_byte-append (x' ∷ s) y t

pub part_name-ne-body_name : (h k : Bytes) → part_name h ≢ body_name k
part_name-ne-body_name h k e =
    let part : last_byte (part_name h) ≡ b't' =
      rw (← append_assoc (ascii ".incoming-") h (ascii ".part"))
        (last_byte-append (ascii ".incoming-" ++ h) b'.' (ascii "part")) in
    let body : last_byte (body_name k) ≡ b'y' = last_byte-append k b'.' (ascii "body") in
    absurd (omega (arith, part, body, ap last_byte e))

pub body_name_injective : (h k : Bytes) → body_name h ≡ body_name k → h ≡ k
body_name_injective h k e =
    let same : length h ≡ length k =
      omega
        (arith, length-append h (ascii ".body"), length-append k (ascii ".body"), ap length e) in
    sym (take-append h (ascii ".body"))
    ∙ (ap (take (length h)) e ∙ rw same (take-append k (ascii ".body")))

pub part_name_injective : (h k : Bytes) → part_name h ≡ part_name k → h ≡ k
part_name_injective h k e =
    let tails : h ++ ascii ".part" ≡ k ++ ascii ".part" = ap (drop 10) e in
    let same : length h ≡ length k =
      omega (
        arith,
        length-append h (ascii ".part"),
        length-append k (ascii ".part"),
        ap length tails,
      ) in
    sym (take-append h (ascii ".part"))
    ∙ (ap (take (length h)) tails ∙ rw same (take-append k (ascii ".part")))

pub hex_decode-cid_of : (c : Crates) (b : Bytes) → hex_decode (cid_of c b) ≡ ok (c.sha.digest b)
hex_decode-cid_of c b =
    rw (c.hex.encode_lem (c.sha.digest b)) (hex_decode-lower_hex _ (c.sha.digest-IsByte b))

pub digest-eq :
    (c : Crates) (a b : Bytes) → cid_of c a ≡ cid_of c b → c.sha.digest a ≡ c.sha.digest b
digest-eq c a b e = cc (hex_decode-cid_of c a, hex_decode-cid_of c b, ap hex_decode e)
