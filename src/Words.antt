-- ===== src/Words.antt =====
-- Machine words and their bytes: `to_be_bytes`, `to_le_bytes` and their inverses of the Rust
-- standard library, which src/p2p.rs and src/fabric.rs use on u16, u32 and u64.
use spore_peer.Prelude.{
  ℕ, zero, suc, ◌+◌, ◌*◌, ◌/◌, ◌%◌, ◌^◌, ◌≤◌, ◌<◌, ◌≡◌, refl, ap, ◌∙◌, [], ◌∷◌, ◌++◌, Option, none,
  some, Bytes, IsByte, All, All-append, length, length-append, ltb, if◌then◌else◌, arith,
}
use native.Mathlib.Nat.{pow-suc}

abbrev pub IsU64 : ℕ → Type 0
IsU64 n = n < 2 ^ 64

-- The low `k` bytes of `n`, least significant first.
unfoldable pub le_bytes : ℕ → ℕ → Bytes
le_bytes zero n = []
le_bytes (suc k) n = (n % 256) ∷ le_bytes k (n / 256)

unfoldable pub from_le_bytes : Bytes → ℕ
from_le_bytes [] = 0
from_le_bytes (b ∷ bs) = b + 256 * from_le_bytes bs

-- The low `k` bytes of `n`, most significant first.
unfoldable pub be_bytes : ℕ → ℕ → Bytes
be_bytes zero n = []
be_bytes (suc k) n = be_bytes k (n / 256) ++ ((n % 256) ∷ [])

from_be_acc : ℕ → Bytes → ℕ
from_be_acc acc [] = acc
from_be_acc acc (b ∷ bs) = from_be_acc (256 * acc + b) bs

unfoldable pub from_be_bytes : Bytes → ℕ
unfolding from_be_acc
from_be_bytes bs = from_be_acc 0 bs

-- `a.checked_add(b)` on a 64-bit usize.
abbrev pub checked_add : ℕ → ℕ → Option ℕ
checked_add a b = if ltb (a + b) (2 ^ 64) then some (a + b) else none

-- `a + b` on u64 in a release build, where it wraps around.
abbrev pub wrapping_add : ℕ → ℕ → ℕ
wrapping_add a b = (a + b) % 2 ^ 64

pub wrapping_add-le : (a b : ℕ) → wrapping_add a b ≤ a + b
wrapping_add-le a b = omega arith

pub wrapping_add-eq : (a b : ℕ) → IsU64 (a + b) → wrapping_add a b ≡ a + b
wrapping_add-eq a b h = omega (arith, h)

pub length-le_bytes : (k n : ℕ) → length (le_bytes k n) ≡ k
unfolding le_bytes
length-le_bytes zero n = refl
length-le_bytes (suc k) n = ap suc (length-le_bytes k (n / 256))

pub length-be_bytes : (k n : ℕ) → length (be_bytes k n) ≡ k
unfolding be_bytes
length-be_bytes zero n = refl
length-be_bytes (suc k) n =
    length-append (be_bytes k (n / 256)) _ ∙ omega (arith, length-be_bytes k (n / 256))

pub le_bytes-IsByte : (k n : ℕ) → All IsByte (le_bytes k n)
unfolding le_bytes
le_bytes-IsByte zero n = tt
le_bytes-IsByte (suc k) n = (omega arith, le_bytes-IsByte k (n / 256))

pub be_bytes-IsByte : (k n : ℕ) → All IsByte (be_bytes k n)
unfolding be_bytes
be_bytes-IsByte zero n = tt
be_bytes-IsByte (suc k) n =
    All-append IsByte (be_bytes k (n / 256)) _ (be_bytes-IsByte k (n / 256)) (omega arith, tt)

pub from_le_bytes-le_bytes : (k n : ℕ) → n < 256 ^ k → from_le_bytes (le_bytes k n) ≡ n
unfolding le_bytes from_le_bytes
from_le_bytes-le_bytes zero n h = omega arith
from_le_bytes-le_bytes (suc k) n h =
    let low : n < 256 * 256 ^ k = omega (arith, pow-suc 256 k) in
    omega (arith, from_le_bytes-le_bytes k (n / 256) (omega arith))

pub le_bytes-from_le_bytes :
    (bs : Bytes) → All IsByte bs → le_bytes (length bs) (from_le_bytes bs) ≡ bs
unfolding le_bytes from_le_bytes
le_bytes-from_le_bytes [] h = refl
le_bytes-from_le_bytes (b ∷ bs) (hb, hs) =
    let low : (b + 256 * from_le_bytes bs) % 256 ≡ b = omega arith in
    let high : (b + 256 * from_le_bytes bs) / 256 ≡ from_le_bytes bs = omega arith in
    simp (low, high, le_bytes-from_le_bytes bs hs)

pub from_le_bytes-lt : (bs : Bytes) → All IsByte bs → from_le_bytes bs < 256 ^ length bs
unfolding from_le_bytes
from_le_bytes-lt [] h = omega arith
from_le_bytes-lt (b ∷ bs) (hb, hs) = omega (arith, from_le_bytes-lt bs hs, pow-suc 256 (length bs))

from_be_acc-append :
    (acc : ℕ) (bs : Bytes) (b : ℕ) → from_be_acc acc (bs ++ (b ∷ [])) ≡ 256 * from_be_acc acc bs + b
unfolding from_be_acc
from_be_acc-append acc [] b = refl
from_be_acc-append acc (c ∷ bs) b = from_be_acc-append (256 * acc + c) bs b

pub from_be_bytes-be_bytes : (k n : ℕ) → n < 256 ^ k → from_be_bytes (be_bytes k n) ≡ n
unfolding be_bytes from_be_bytes
from_be_bytes-be_bytes zero n h = omega arith
from_be_bytes-be_bytes (suc k) n h =
    let low : n < 256 * 256 ^ k = omega (arith, pow-suc 256 k) in
    from_be_acc-append 0 (be_bytes k (n / 256)) (n % 256)
    ∙ omega (arith, from_be_bytes-be_bytes k (n / 256) (omega arith))

from_be_acc-lt :
    (acc : ℕ) (bs : Bytes) → All IsByte bs → from_be_acc acc bs < (acc + 1) * 256 ^ length bs
unfolding from_be_acc
from_be_acc-lt acc [] h = omega arith
from_be_acc-lt acc (b ∷ bs) (hb, hs) =
    let step : (256 * acc + b + 1) * 256 ^ length bs ≤ (256 * (acc + 1)) * 256 ^ length bs =
      grind arith in
    let whole = ap (λ (t : ℕ). (acc + 1) * t) (pow-suc 256 (length bs)) in
    omega (arith, from_be_acc-lt (256 * acc + b) bs hs, step, whole)

pub from_be_bytes-lt : (bs : Bytes) → All IsByte bs → from_be_bytes bs < 256 ^ length bs
unfolding from_be_bytes
from_be_bytes-lt bs h = omega (arith, from_be_acc-lt 0 bs h)
