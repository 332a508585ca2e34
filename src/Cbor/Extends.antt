-- ===== src/Cbor/Extends.antt =====
-- Steps of the decoder of src/p2p.rs that return more often than others, and the same values.
use spore_peer.Prelude.{
  ℕ, zero, suc, ◌≤◌, ◌≡◌, refl, ap, true, false, [], ◌∷◌, ◌++◌, Bool, Bytes, length, take, drop,
  if◌then◌else◌, Try, ok, err, panic, ◌>>=◌, arith,
}

-- What the first returns, the second returns too.
abbrev pub Extends {ℓ} : {A : Type ℓ} → Try A → Try A → Type ℓ
Extends {A = A} r s = (a : A) → r ≡ ok a → s ≡ ok a

module _ {ℓ κ} {A : Type ℓ} {B : Type κ} where
  pub Extends-bind :
      (r s : Try A) (f g : A → Try B)
      → Extends r s
      → ((a : A) → Extends (f a) (g a))
      → Extends (r >>= f) (s >>= g)
  Extends-bind (ok a) s f g h k b e = rw (h a refl) (k a b e)
  Extends-bind (err u) s f g h k b e = cc
  Extends-bind panic s f g h k b e = cc

  -- The same step before both.
  pub Extends-after :
      (r : Try A) (f g : A → Try B) → ((a : A) → Extends (f a) (g a)) → Extends (r >>= f) (r >>= g)
  Extends-after (ok a) f g k b e = k a b e
  Extends-after (err u) f g k b e = cc
  Extends-after panic f g k b e = cc

pub Extends-if {ℓ} :
    {A : Type ℓ} (b : Bool) (x y u v : Try A)
    → Extends x u
    → Extends y v
    → Extends (if b then x else y) (if b then u else v)
Extends-if true x y u v h k = h
Extends-if false x y u v h k = k

pub take-front : (n : ℕ) (b t : Bytes) → n ≤ length b → take n (b ++ t) ≡ take n b
take-front zero b t h = refl
take-front (suc n) [] t h = absurd (omega (arith, h))
take-front (suc n) (x ∷ b) t h = ap (λ s. x ∷ s) (take-front n b t (omega (arith, h)))

pub drop-front : (n : ℕ) (b t : Bytes) → n ≤ length b → drop n (b ++ t) ≡ drop n b ++ t
drop-front zero b t h = refl
drop-front (suc n) [] t h = absurd (omega (arith, h))
drop-front (suc n) (x ∷ b) t h = drop-front n b t (omega (arith, h))
