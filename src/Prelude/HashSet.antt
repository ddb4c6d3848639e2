-- ===== src/Prelude/HashSet.antt =====
-- std's `HashSet` as a list without repetitions, in the order of insertion. A set that a program
-- builds by `insert` and `extend` satisfies `IsDistinct`.
use Prim.Native.Nat.{◌≤◌}
use mathlib.Core.Path.{◌≡◌, refl}
use mathlib.Core.Logic.{inl, inr}
use mathlib.Core.Bool.{Bool, true, false, not, ◌&&◌, ◌||◌}
use mathlib.Core.List.{List, [], ◌∷◌, ◌++◌}
use native.Mathlib.Omega.{arith}
use zfx_subzero.Prelude.Tests.{if◌then◌else◌, Bool-cases}
use zfx_subzero.Prelude.Lists.{length}
use zfx_subzero.Prelude.Keys.{Eq, ◌==◌, ==_refl}

abbrev pub HashSet {ℓ} : Type ℓ → Type ℓ
HashSet A = List A

module _ {ℓ} {A : Type ℓ} ⦃e : Eq A⦄ where
  unfoldable pub contains : HashSet A → A → Bool
  contains [] a = false
  contains (x ∷ xs) a = x == a || contains xs a

  unfoldable pub insert : A → HashSet A → HashSet A
  unfolding contains
  insert a s = if contains s a then s else s ++ a ∷ []

  unfoldable pub remove : A → HashSet A → HashSet A
  remove a [] = []
  remove a (x ∷ xs) = let rest = remove a xs in if x == a then rest else x ∷ rest

  unfoldable pub extend : HashSet A → List A → HashSet A
  unfolding insert
  extend s [] = s
  extend s (x ∷ xs) = extend (insert x s) xs

  unfoldable pub is_disjoint : HashSet A → HashSet A → Bool
  unfolding contains
  is_disjoint [] t = true
  is_disjoint (x ∷ xs) t = not (contains t x) && is_disjoint xs t

  unfoldable pub intersection : HashSet A → HashSet A → HashSet A
  unfolding contains
  intersection [] t = []
  intersection (x ∷ xs) t = let rest = intersection xs t in if contains t x then x ∷ rest else rest

  unfoldable pub difference : HashSet A → HashSet A → HashSet A
  unfolding contains
  difference [] t = []
  difference (x ∷ xs) t = let rest = difference xs t in if contains t x then rest else x ∷ rest

  -- `vec.retain(f)`
  unfoldable pub retain : (A → Bool) → List A → List A
  retain f [] = []
  retain f (x ∷ xs) = let rest = retain f xs in if f x then x ∷ rest else rest

  abbrev pub IsDistinct : List A → Type 0
  IsDistinct [] = Unit
  IsDistinct (x ∷ xs) = (contains xs x ≡ false) × IsDistinct xs

  pub contains-append :
      (xs ys : List A) (a : A) → contains (xs ++ ys) a ≡ (contains xs a || contains ys a)
  unfolding contains
  contains-append [] ys a = refl
  contains-append (x ∷ xs) ys a = ground (arith, contains-append xs ys a)

  pub contains-retain :
      (f : A → Bool) (xs : List A) (b : A) → contains (retain f xs) b ≡ (contains xs b && f b)
  unfolding contains retain
  contains-retain f [] b = refl
  contains-retain f (x ∷ xs) b = ground (arith, e.eq_iff x b, contains-retain f xs b)

  pub contains-insert :
      (a : A) (s : HashSet A) (b : A) → contains (insert a s) b ≡ (a == b || contains s b)
  unfolding contains insert
  contains-insert a s b = elim (Bool-cases (contains s a)) [
    | inl old ↦ ground (arith, e.eq_iff a b)
    | inr new ↦ ground (arith, contains-append s (a ∷ []) b)
  ]

  pub contains-remove :
      (a : A) (s : HashSet A) (b : A) → contains (remove a s) b ≡ (not (a == b) && contains s b)
  unfolding contains remove
  contains-remove a [] b = ground arith
  contains-remove a (x ∷ xs) b =
      ground (arith, e.eq_iff a b, e.eq_iff x a, e.eq_iff x b, contains-remove a xs b)

  pub contains-extend :
      (s : HashSet A) (xs : List A) (b : A)
      → contains (extend s xs) b ≡ (contains s b || contains xs b)
  unfolding contains extend
  contains-extend s [] b = ground arith
  contains-extend s (x ∷ xs) b =
      ground (arith, contains-extend (insert x s) xs b, contains-insert x s b)

  pub contains-intersection :
      (s t : HashSet A) (b : A) → contains (intersection s t) b ≡ (contains s b && contains t b)
  unfolding contains intersection
  contains-intersection [] t b = refl
  contains-intersection (x ∷ s) t b = ground (arith, e.eq_iff x b, contains-intersection s t b)

  pub contains-difference :
      (s t : HashSet A) (b : A) → contains (difference s t) b ≡ (contains s b && not (contains t b))
  unfolding contains difference
  contains-difference [] t b = refl
  contains-difference (x ∷ s) t b = ground (arith, e.eq_iff x b, contains-difference s t b)

  -- A shared element refutes disjointness, and disjoint sets share none.
  pub is_disjoint-shared :
      (s t : HashSet A) (a : A)
      → contains s a ≡ true
      → contains t a ≡ true
      → is_disjoint s t ≡ false
  unfolding contains is_disjoint
  is_disjoint-shared [] t a h k = cc
  is_disjoint-shared (x ∷ s) t a h k = ground (arith, e.eq_iff x a, is_disjoint-shared s t a)

  pub is_disjoint-empty : (a : List A) → is_disjoint a [] ≡ true
  unfolding is_disjoint contains
  is_disjoint-empty [] = refl
  is_disjoint-empty (x ∷ xs) = is_disjoint-empty xs

  pub is_disjoint-witness :
      (s t : HashSet A)
      → is_disjoint s t ≡ false
      → (a : A) × (contains s a ≡ true) × (contains t a ≡ true)
  unfolding contains is_disjoint
  is_disjoint-witness [] t h = absurd (cc h)
  is_disjoint-witness (x ∷ s) t h = elim (Bool-cases (contains t x)) [
    | inl found ↦ (x, ground (arith, ==_refl x), found)
    | inr absent ↦ let (a, p, q) = is_disjoint-witness s t (ground arith) in (a, ground arith, q)
  ]

  pub IsDistinct-snoc :
      (xs : List A) (a : A) → IsDistinct xs → contains xs a ≡ false → IsDistinct (xs ++ a ∷ [])
  unfolding contains
  IsDistinct-snoc [] a d h = (refl, tt)
  IsDistinct-snoc (x ∷ xs) a d h = (
    ground (arith, contains-append xs (a ∷ []) x, e.eq_iff a x, e.eq_iff x a),
    IsDistinct-snoc xs a d.1 (ground arith),
  )

  pub insert-IsDistinct : (a : A) (s : HashSet A) → IsDistinct s → IsDistinct (insert a s)
  unfolding insert
  insert-IsDistinct a s d = elim (Bool-cases (contains s a)) [
    | inl old ↦ rw old d
    | inr new ↦ rw new (IsDistinct-snoc s a d new)
  ]

  pub remove-IsDistinct : (a : A) (s : HashSet A) → IsDistinct s → IsDistinct (remove a s)
  unfolding remove
  remove-IsDistinct a [] d = tt
  remove-IsDistinct a (x ∷ s) d = elim (Bool-cases (x == a)) [
    | inl same ↦ rw same (remove-IsDistinct a s d.1)
    | inr other ↦ rw other (ground (arith, contains-remove a s x, d.0), remove-IsDistinct a s d.1)
  ]

  pub length-remove-le : (a : A) (s : HashSet A) → length (remove a s) ≤ length s
  unfolding remove
  length-remove-le a [] = omega arith
  length-remove-le a (x ∷ s) = ground (arith, length-remove-le a s)
