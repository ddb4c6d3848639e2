-- ===== src/Prelude/Checks.antt =====
-- A loop that leaves with `false` at the first element that fails a test, and may fail itself.
use mathlib.Core.Path.{◌≡◌, refl, subst}
use mathlib.Core.Logic.{◌↔◌, ◌⊎◌, inl, inr}
use mathlib.Core.Bool.{Bool, true, false}
use mathlib.Core.List.{List, [], ◌∷◌}
use native.Mathlib.Omega.{arith}
use zfx_subzero.Prelude.Tests.{Bool-cases}
use zfx_subzero.Prelude.Outcome.{Result, ok, err, panic}
use zfx_subzero.Prelude.Keys.{Eq, ◌==◌, ==_refl, ==_sound}
use zfx_subzero.Prelude.HashSet.{contains}

abbrev both {ℓ} : {E : Type ℓ} → Result E Bool → Result E Bool → Result E Bool
both (ok true) rest = rest
both (ok false) rest = ok false
both (err e) rest = err e
both panic rest = panic

module _ {ℓ} {E : Type ℓ} where
  both-fst : (r rest : Result E Bool) → both r rest ≡ ok true → r ≡ ok true
  both-fst r rest h = ground arith

  both-snd : (r rest : Result E Bool) → both r rest ≡ ok true → rest ≡ ok true
  both-snd r rest h = ground arith

  both-false :
      (r rest : Result E Bool) → both r rest ≡ ok false → (r ≡ ok false) ⊎ (rest ≡ ok false)
  both-false (ok true) rest h = inr h
  both-false (ok false) rest h = inl refl
  both-false (err e) rest h = absurd (cc h)
  both-false panic rest h = absurd (cc h)

  both-ends :
      (r rest : Result E Bool)
      → (b : Bool) × (r ≡ ok b)
      → (b : Bool) × (rest ≡ ok b)
      → (b : Bool) × (both r rest ≡ ok b)
  both-ends r rest (true, h) (b, k) = (b, rw (h, k) refl)
  both-ends r rest (false, h) k = (false, rw h refl)

module _ {ℓ κ} {A : Type ℓ} {E : Type κ} (f : A → Result E Bool) where
  unfoldable pub all_ok : List A → Result E Bool
  all_ok [] = ok true
  all_ok (x ∷ xs) = both (f x) (all_ok xs)

  module _ ⦃e : Eq A⦄ where
    all_ok-elim : (xs : List A) (x : A) → all_ok xs ≡ ok true → contains xs x ≡ true → f x ≡ ok true
    unfolding all_ok contains
    all_ok-elim [] x h k = absurd (cc k)
    all_ok-elim (y ∷ xs) x h k = elim (Bool-cases (y == x)) [
      | inl same ↦ subst (λ z. f z ≡ ok true) (==_sound y x same) (both-fst (f y) _ h)
      | inr other ↦ all_ok-elim xs x (both-snd (f y) _ h) (ground arith)
    ]

    all_ok-intro :
        (xs : List A) → ((x : A) → contains xs x ≡ true → f x ≡ ok true) → all_ok xs ≡ ok true
    unfolding all_ok contains
    all_ok-intro [] h = refl
    all_ok-intro (y ∷ xs) h =
        rw (h y (ground (arith, ==_refl y)), all_ok-intro xs (λ x k. h x (ground arith))) refl

    -- All elements pass exactly if the loop ends with `true`.
    pub all_ok-true :
        (xs : List A) → (all_ok xs ≡ ok true) ↔ ((x : A) → contains xs x ≡ true → f x ≡ ok true)
    all_ok-true xs = (λ h x k. all_ok-elim xs x h k, all_ok-intro xs)

    -- If the loop ends with `false`, an element fails.
    pub all_ok-false :
        (xs : List A) → all_ok xs ≡ ok false → (x : A) × (contains xs x ≡ true) × (f x ≡ ok false)
    unfolding all_ok contains
    all_ok-false [] h = absurd (cc h)
    all_ok-false (y ∷ xs) h = elim (both-false (f y) (all_ok xs) h) [
      | inl bad ↦ (y, ground (arith, ==_refl y), bad)
      | inr rest ↦ let (x, k, bad) = all_ok-false xs rest in (x, ground arith, bad)
    ]

    -- The loop ends if each test does.
    pub all_ok-ends :
        (xs : List A)
        → ((x : A) → contains xs x ≡ true → (b : Bool) × (f x ≡ ok b))
        → (b : Bool) × (all_ok xs ≡ ok b)
    unfolding all_ok contains
    all_ok-ends [] h = (true, refl)
    all_ok-ends (y ∷ xs) h =
        both-ends (f y) (all_ok xs) (h y (ground (arith, ==_refl y)))
          (all_ok-ends xs (λ x k. h x (ground arith)))
