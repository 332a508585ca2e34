-- ===== src/Prelude/Results.antt =====
-- The outcome of a Rust call: a value, the error of an `Option` or `Result`, or a panic.
use mathlib.Core.Path.{◌≡◌, refl, subst}
use mathlib.Core.Logic.{◌≢◌, ◌⊎◌, inl, inr}
use mathlib.Core.Bool.{Bool, true, false}
use spore_peer.Prelude.Tests.{if◌then◌else◌}
use mathlib.Core.Option.{Option, none, some}

pub data Result {ℓ} (E : Type 0) (A : Type ℓ) : Type ℓ where
  ok : A → Result E A
  err : E → Result E A
  panic : Result E A

-- A function that returns an `Option` in the source and may panic.
abbrev pub Try {ℓ} : Type ℓ → Type ℓ
Try A = Result (Unit {0}) A

abbrev pub refused {ℓ} : {A : Type ℓ} → Try A
refused = err tt

module _ {ℓ κ} {E : Type 0} {A : Type ℓ} {B : Type κ} where
  infixl 5 ◌>>=◌
  abbrev pub ◌>>=◌ : Result E A → (A → Result E B) → Result E B
  ok a >>= f = f a
  err e >>= f = err e
  panic >>= f = panic

infixl 5 ◌>>◌
abbrev pub ◌>>◌ {ℓ} : {E : Type 0} {B : Type ℓ} → Result E (Unit {0}) → Result E B → Result E B
m >> k = m >>= λ _. k

-- `if !test { return Err(e) }`
abbrev pub guard : {E : Type 0} → Bool → E → Result E (Unit {0})
guard true e = ok tt
guard false e = err e

-- `o.ok_or(e)?`
abbrev pub ok_or {ℓ} : {E : Type 0} {A : Type ℓ} → Option A → E → Result E A
ok_or none e = err e
ok_or (some a) e = ok a

pub Result-cases {ℓ} :
    {E : Type 0} {A : Type ℓ} (r : Result E A)
    → ((a : A) × (r ≡ ok a)) ⊎ ((e : E) × (r ≡ err e)) ⊎ (r ≡ panic)
Result-cases (ok a) = inl (a, refl)
Result-cases (err e) = inr (inl (e, refl))
Result-cases panic = inr (inr refl)

-- Where a chain of calls returns a value, the first call does, and the rest does with it.
module _ {ℓ κ} {E : Type 0} {A : Type ℓ} {B : Type κ} where
  pub chain_ok :
      (first : Result E A) (rest : A → Result E B) {out : B}
      → (first >>= rest) ≡ ok out
      → (mid : A) × (first ≡ ok mid) × (rest mid ≡ ok out)
  chain_ok panic rest returns = cc
  chain_ok (err x) rest returns = cc
  chain_ok (ok mid) rest returns = (mid, refl, returns)

pub ok_or-eq-ok {ℓ} :
    {E : Type 0} {A : Type ℓ} (o : Option A) (e : E) {a : A} → ok_or o e ≡ ok a → o ≡ some a
ok_or-eq-ok none e h = cc
ok_or-eq-ok (some a) e h = cc

pub ok_inj {ℓ} : {E : Type 0} {A : Type ℓ} {a b : A} → ◌≡◌ {A = Result E A} (ok a) (ok b) → a ≡ b
ok_inj h = cc

pub guard-eq-ok : {E : Type 0} (b : Bool) (e : E) {u : Unit {0}} → guard b e ≡ ok u → b ≡ true
guard-eq-ok true e h = refl
guard-eq-ok false e h = cc

-- The call does not panic, and `P` holds of its value if it has one.
pub data Ensures {ℓ κ} {E : Type 0} {A : Type ℓ} (P : A → Type κ) : Result E A → Type (ℓ ⊔ κ) where
  fails : {e : E} → Ensures P (err e)
  holds : {a : A} → P a → Ensures P (ok a)

module _ {ℓ κ} {E : Type 0} {A : Type ℓ} {P : A → Type κ} where
  pub Ensures-bind {ℓ' κ'} :
      {B : Type ℓ'} {Q : B → Type κ'} {r : Result E A} {f : A → Result E B}
      → Ensures P r
      → ((a : A) → P a → Ensures Q (f a))
      → Ensures Q (r >>= f)
  Ensures-bind (holds {a} h) k = k a h
  Ensures-bind fails k = fails

  pub Ensures-if :
      (b : Bool) {x y : Result E A}
      → (b ≡ true → Ensures P x)
      → (b ≡ false → Ensures P y)
      → Ensures P (if b then x else y)
  Ensures-if true hx hy = hx refl
  Ensures-if false hx hy = hy refl

  pub Ensures-ok_or : (o : Option A) (e : E) → ((a : A) → o ≡ some a → P a) → Ensures P (ok_or o e)
  Ensures-ok_or none e k = fails
  Ensures-ok_or (some a) e k = holds (k a refl)

  pub Ensures-ok : {a : A} {r : Result E A} → r ≡ ok a → Ensures P r → P a
  Ensures-ok e fails = cc
  Ensures-ok e (holds p) = subst P (cc) p

  pub Ensures-ne-panic : {r : Result E A} → Ensures P r → r ≢ panic
  Ensures-ne-panic (holds h) e = cc
  Ensures-ne-panic fails e = cc

pub Ensures-guard :
    {E : Type 0} (b : Bool) (e : E) → Ensures (λ (u : Unit {0}). b ≡ true) (guard b e)
Ensures-guard true e = holds refl
Ensures-guard false e = fails

pub Ensures-weaken {ℓ κ κ'} :
    {E : Type 0} {A : Type ℓ} {P : A → Type κ} {Q : A → Type κ'} {r : Result E A}
    → Ensures P r
    → ((a : A) → P a → Q a)
    → Ensures Q r
Ensures-weaken (holds {a} h) k = holds (k a h)
Ensures-weaken fails k = fails
