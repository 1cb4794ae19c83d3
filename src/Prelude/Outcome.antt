-- ===== src/Prelude/Outcome.antt =====
-- A step that may fail with an error, chained by `do`, and what holds when it does not fail.
use mathlib.Core.Path.{◌≡◌, refl, sym}
use mathlib.Core.Logic.{◌⊎◌, inl, inr}
use mathlib.Core.Bool.{Bool, true, false}
use sih.Prelude.Tests.{if◌then◌else◌}

pub data Outcome {ℓ κ} (E : Type κ) (A : Type ℓ) : Type (ℓ ⊔ κ) where
  failed : E → Outcome E A
  done : A → Outcome E A

module _ {ℓ κ ι} {E : Type κ} {A : Type ℓ} {B : Type ι} where
  infixl 5 ◌>>=◌
  unfoldable pub ◌>>=◌ : Outcome E A → (A → Outcome E B) → Outcome E B
  failed e >>= f = failed e
  done a >>= f = f a

  infixl 5 ◌>>◌
  unfoldable pub ◌>>◌ : Outcome E A → Outcome E B → Outcome E B
  failed e >> m = failed e
  done a >> m = m

module _ {κ} {E : Type κ} where
  unfoldable pub raise_if : Bool → E → Outcome {0, κ} E Unit
  raise_if true e = failed e
  raise_if false e = done tt

module _ {ℓ κ ι} {E : Type κ} {A : Type ℓ} (P : A → Type ι) where
  -- The property of the result, where there is one.
  unfoldable pub Holds : Outcome E A → Type ι
  Holds (failed e) = Unit
  Holds (done a) = P a

module _ {ℓ κ ι ρ χ} {E : Type κ} {A : Type ℓ} {B : Type ι} (P : A → Type ρ) (Q : B → Type χ) where
  pub Holds-bind :
      (m : Outcome E A) (f : A → Outcome E B)
      → Holds P m
      → ((a : A) → m ≡ done a → P a → Holds Q (f a))
      → Holds Q (m >>= f)
  unfolding Holds ◌>>=◌ ◌>>◌ raise_if
  Holds-bind (failed e) f h k = tt
  Holds-bind (done a) f h k = k a refl h

module _ {ℓ κ ι} {E : Type κ} {A : Type ℓ} (P : A → Type ι) where
  pub Holds-if :
      (test : Bool) (x y : Outcome E A)
      → (test ≡ true → Holds P x)
      → (test ≡ false → Holds P y)
      → Holds P (if test then x else y)
  unfolding Holds ◌>>=◌ ◌>>◌ raise_if
  Holds-if true x y h k = h refl
  Holds-if false x y h k = k refl

  pub Holds-raise_if :
      (test : Bool) (e : E) (m : Outcome E A)
      → (test ≡ false → Holds P m)
      → Holds P (raise_if test e >> m)
  unfolding Holds ◌>>=◌ ◌>>◌ raise_if
  Holds-raise_if true e m h = tt
  Holds-raise_if false e m h = h refl

  pub Holds-done : (m : Outcome E A) (a : A) → Holds P m → m ≡ done a → P a
  unfolding Holds ◌>>=◌ ◌>>◌ raise_if
  Holds-done (failed e) a h q = cc
  Holds-done (done b) a h q = let same : b ≡ a = cc in rw (sym same) h

module _ {ℓ κ ι} (E : Type κ) {A : Type ℓ} (P : A → Type ι) where
  pub done-Holds : (a : A) → P a → Holds {E = E} P (done a)
  unfolding Holds
  done-Holds a h = h

module _ {ℓ κ ι} {E : Type κ} {A : Type ℓ} (P : A → Type ι) where
  pub failed-Holds : (e : E) → Holds P (failed e)
  unfolding Holds
  failed-Holds e = tt

pub any-Holds {ℓ κ} : {E : Type κ} {A : Type ℓ} (m : Outcome E A) → Holds (λ _. Unit {0}) m
unfolding Holds
any-Holds (failed e) = tt
any-Holds (done a) = tt

pub Holds-impl {ℓ κ ι ρ} :
    {E : Type κ} {A : Type ℓ} (P : A → Type ι) (Q : A → Type ρ) (m : Outcome E A)
    → ((a : A) → P a → Q a)
    → Holds P m
    → Holds Q m
unfolding Holds
Holds-impl P Q (failed e) f h = tt
Holds-impl P Q (done a) f h = f a h

pub Outcome-cases {ℓ κ} :
    {E : Type κ} {A : Type ℓ} (m : Outcome E A)
    → ((e : E) × (m ≡ failed e)) ⊎ ((a : A) × (m ≡ done a))
Outcome-cases (failed e) = inl (e, refl)
Outcome-cases (done a) = inr (a, refl)
