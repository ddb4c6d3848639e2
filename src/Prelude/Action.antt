-- ===== src/Prelude/Action.antt =====
-- Code that changes a state `S` and may fail. What was changed before an early return stays changed.
use mathlib.Core.Path.{◌≡◌, refl}
use zfx_subzero.Prelude.Outcome.{Result, ok, err, panic}

abbrev pub Action {ℓ κ μ} : Type ℓ → Type κ → Type μ → Type (ℓ ⊔ κ ⊔ μ)
Action S E A = S → S × Result E A

module _ {ℓ κ μ} {S : Type ℓ} {E : Type κ} {A : Type μ} where
  abbrev pub pure : A → Action S E A
  pure a s = (s, ok a)

  abbrev pub throw : E → Action S E A
  throw e s = (s, err e)

  -- A fallible computation that changes nothing.
  abbrev pub lift : Result E A → Action S E A
  lift r s = (s, r)

abbrev pub gets {ℓ κ μ} : {S : Type ℓ} {E : Type κ} {A : Type μ} → (S → A) → Action S E A
gets f s = (s, ok (f s))

abbrev pub modify {ℓ κ} : {S : Type ℓ} {E : Type κ} → (S → S) → Action S E (Unit {0})
modify f s = (f s, ok tt)

module _ {ℓ κ μ ν} {S : Type ℓ} {E : Type κ} {A : Type μ} {B : Type ν} where
  abbrev pub and_then : Result E A → (A → Action S E B) → Action S E B
  and_then (ok a) f = f a
  and_then (err e) f = λ s. (s, err e)
  and_then panic f = λ s. (s, panic)

  infixl 5 ◌>>=◌
  abbrev pub ◌>>=◌ : Action S E A → (A → Action S E B) → Action S E B
  m >>= f = λ s. and_then (m s).1 f (m s).0

infixl 5 ◌>>◌
abbrev pub ◌>>◌ {ℓ κ ν} :
    {S : Type ℓ} {E : Type κ} {B : Type ν} → Action S E (Unit {0}) → Action S E B → Action S E B
m >> k = m >>= λ _. k

-- A bind whose first part succeeds.
pub >>=-ok {ℓ κ μ ν} :
    {S : Type ℓ} {E : Type κ} {A : Type μ} {B : Type ν} (m : Action S E A) (f : A → Action S E B)
    (s : S) {a : A}
    → (m s).1 ≡ ok a
    → (m >>= f) s ≡ f a (m s).0
>>=-ok m f s h = rw h refl

-- Inversion of a successful bind.
pub >>=-eq-ok {ℓ κ μ ν} :
    {S : Type ℓ} {E : Type κ} {A : Type μ} {B : Type ν} (m : Action S E A) (f : A → Action S E B)
    (s : S) {b : B}
    → ((m >>= f) s).1 ≡ ok b
    → (a : A) × ((m s).1 ≡ ok a) × ((f a (m s).0).1 ≡ ok b)
>>=-eq-ok {S} {E} {A} {B} m f s {b} h = go (m s).1 (m s).0 h
  where
    go :
        (r : Result E A) (t : S)
        → (and_then r f t).1 ≡ ok b
        → (a : A) × (r ≡ ok a) × ((f a t).1 ≡ ok b)
    go (ok a) t h = (a, refl, h)
    go (err e) t h = cc
    go panic t h = cc
