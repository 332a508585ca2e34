-- ===== src/Cbor/Head.antt =====
-- The head of an item: what `head` writes is what the decoder of src/p2p.rs reads.
use Prim.Native.Nat.{bit_or}
use spore_peer.Prelude.{
  ℕ, ◌+◌, ◌*◌, ◌/◌, ◌%◌, ◌^◌, ◌<◌, ◌≡◌, refl, sym, ◌∙◌, true, ◌∷◌, ◌++◌, Bytes, length, ltb, leb,
  ◌==◌, all_below, all_below_sound, ==_iff, if◌then◌else◌, ok, arith,
}
use mathlib.Core.Path.{ap₂}
use spore_peer.Words.{IsU64, be_bytes, length-be_bytes, from_be_bytes-be_bytes}
use spore_peer.Cbor.Encode.{head}
use spore_peer.Cbor.Decode.{Head, read_head, read_arg, head_args}
use spore_peer.Cbor.Slices.{get_range_front}

or_table : all_below (λ x. bit_or (x / 32 * 32) (x % 32) == x) 256 ≡ true
unfolding all_below
or_table = refl

-- The two parts of a first byte do not overlap.
pub first_byte :
    (major info : ℕ) → major < 8 → info < 32 → bit_or (major * 32 % 256) info ≡ major * 32 + info
first_byte major info hm hi =
    let x = major * 32 + info in
    let top : x / 32 * 32 ≡ major * 32 % 256 = omega arith in
    let low : x % 32 ≡ info = omega arith in
    ap₂ bit_or (sym top) (sym low)
    ∙ (==_iff _ x).0
        (all_below_sound (λ x. bit_or (x / 32 * 32) (x % 32) == x) 256 x (omega arith) or_table)

-- The short argument that `head` writes.
unfoldable pub short_info : ℕ → ℕ
short_info n =
    if ltb n 24
    then n
    else (if leb n 0xff
        then 24
        else (if leb n 0xffff then 25 else (if leb n 0xffff_ffff then 26 else 27)))

-- The head of `n` under `major`, as the decoder sees it.
abbrev pub head_of : ℕ → ℕ → Head
head_of major n = record { major = major; info = short_info n; n = n; pos = length (head major n) }

arg_read :
    (k n major info : ℕ) (rest : Bytes)
    → n < 256 ^ k
    → read_arg major info k (be_bytes k n ++ rest)
      ≡ ok (record { major = major; info = info; n = n; pos = k + 1 })
unfolding read_arg
arg_read k n major info rest h = ground (
  arith,
  get_range_front (be_bytes k n) rest k (length-be_bytes k n),
  from_be_bytes-be_bytes k n h,
)

read_head_cons :
    (major info : ℕ) (rest : Bytes)
    → major < 8
    → info < 32
    → read_head (bit_or (major * 32 % 256) info ∷ rest) ≡ head_args major info rest
unfolding read_head
read_head_cons major info rest hm hi =
    let x = major * 32 + info in
    let high : x / 32 ≡ major = omega arith in
    let low : x % 32 ≡ info = omega arith in
    rw (first_byte major info hm hi) (ap₂ (λ a b. head_args a b rest) high low)

pub read_head-head :
    (major n : ℕ) (rest : Bytes)
    → major < 8
    → IsU64 n
    → read_head (head major n ++ rest) ≡ ok (head_of major n)
unfolding head short_info head_args be_bytes
read_head-head major n rest hm hn = ground (
  arith,
  read_head_cons major (n % 256) rest hm,
  read_head_cons major 24 (be_bytes 1 n ++ rest) hm,
  read_head_cons major 25 (be_bytes 2 n ++ rest) hm,
  read_head_cons major 26 (be_bytes 4 n ++ rest) hm,
  read_head_cons major 27 (be_bytes 8 n ++ rest) hm,
  arg_read 1 n major 24 rest,
  arg_read 2 n major 25 rest,
  arg_read 4 n major 26 rest,
  arg_read 8 n major 27 rest,
  length-be_bytes 2 n,
  length-be_bytes 4 n,
  length-be_bytes 8 n,
)
