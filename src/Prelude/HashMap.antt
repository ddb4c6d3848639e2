-- ===== src/Prelude/HashMap.antt =====
-- std's `HashMap` as an association list in the order of first insertion. Iteration follows the
-- list; the theorems about the program name the elements by `get`, `contains_key` and sets, and so
-- do not depend on that order, which Rust leaves open.
use mathlib.Core.Path.{◌≡◌, refl, ap}
use mathlib.Core.Bool.{Bool, true, false}
use mathlib.Core.Option
use mathlib.Core.Option.{Option, none, some}
use mathlib.Core.List.{List, [], ◌∷◌, map}
use native.Mathlib.Omega.{arith}
use zfx_subzero.Prelude.Tests.{if◌then◌else◌}
use Prim.Native.Nat.{suc, ◌≤◌, ◌<◌}
use zfx_subzero.Prelude.Lists.{length}
use zfx_subzero.Prelude.Keys.{Eq, ◌==◌}
use zfx_subzero.Prelude.HashSet.{contains}

abbrev pub HashMap {ℓ κ} : Type ℓ → Type κ → Type (ℓ ⊔ κ)
HashMap K V = List (K × V)

abbrev pub keys {ℓ κ} : {K : Type ℓ} {V : Type κ} → HashMap K V → List K
keys m = map (λ p. p.0) m

abbrev pub is_empty {ℓ κ} : {K : Type ℓ} {V : Type κ} → HashMap K V → Bool
is_empty [] = true
is_empty (x ∷ m) = false

abbrev pub is_some {ℓ} : {A : Type ℓ} → Option A → Bool
is_some none = false
is_some (some a) = true

module _ {ℓ κ} {K : Type ℓ} {V : Type κ} ⦃e : Eq K⦄ where
  unfoldable pub get : K → HashMap K V → Option V
  get k [] = none
  get k ((j, v) ∷ m) = if j == k then some v else get k m

  -- `insert` replaces the value of a present key; a new key comes last.
  unfoldable pub insert : K → V → HashMap K V → HashMap K V
  insert k v [] = (k, v) ∷ []
  insert k v ((j, w) ∷ m) = let rest = insert k v m in if j == k then (j, v) ∷ m else (j, w) ∷ rest

  unfoldable pub remove : K → HashMap K V → HashMap K V
  remove k [] = []
  remove k ((j, v) ∷ m) = let rest = remove k m in if j == k then rest else (j, v) ∷ rest

  -- An assignment through `get_mut` or an occupied entry.
  unfoldable pub modify : K → (V → V) → HashMap K V → HashMap K V
  modify k f [] = []
  modify k f ((j, v) ∷ m) = (j, if j == k then f v else v) ∷ modify k f m

  abbrev pub contains_key : K → HashMap K V → Bool
  contains_key k m = is_some (get k m)

  pub get-insert :
      (k : K) (v : V) (m : HashMap K V) (j : K)
      → get j (insert k v m) ≡ (if k == j then some v else get j m)
  unfolding get insert
  get-insert k v [] j = refl
  get-insert k v ((i, w) ∷ m) j =
      ground (arith, e.eq_iff k j, e.eq_iff i k, e.eq_iff i j, get-insert k v m j)

  pub get-remove :
      (k : K) (m : HashMap K V) (j : K) → get j (remove k m) ≡ (if k == j then none else get j m)
  unfolding get remove
  get-remove k [] j = ground arith
  get-remove k ((i, w) ∷ m) j =
      ground (arith, e.eq_iff k j, e.eq_iff i k, e.eq_iff i j, get-remove k m j)

  pub get-modify :
      (k : K) (f : V → V) (m : HashMap K V) (j : K)
      → get j (modify k f m) ≡ (if k == j then Option.map f (get j m) else get j m)
  unfolding get modify
  get-modify k f [] j = ground arith
  get-modify k f ((i, w) ∷ m) j =
      ground (arith, e.eq_iff k j, e.eq_iff i k, e.eq_iff i j, get-modify k f m j)

  -- The keys of the list are those with a value.
  pub contains-keys : (m : HashMap K V) (k : K) → contains (keys m) k ≡ contains_key k m
  unfolding get contains
  contains-keys [] k = refl
  contains-keys ((j, v) ∷ m) k = ground (arith, contains-keys m k)

  pub length-modify : (k : K) (f : V → V) (m : HashMap K V) → length (modify k f m) ≡ length m
  unfolding modify
  length-modify k f [] = refl
  length-modify k f ((j, v) ∷ m) = ap suc (length-modify k f m)

  pub length-remove_le : (k : K) (m : HashMap K V) → length (remove k m) ≤ length m
  unfolding remove
  length-remove_le k [] = omega arith
  length-remove_le k ((j, v) ∷ m) = ground (arith, length-remove_le k m)

  pub length-remove_lt :
      (k : K) (m : HashMap K V) {v : V} → get k m ≡ some v → length (remove k m) < length m
  unfolding remove get
  length-remove_lt k [] h = absurd (cc h)
  length-remove_lt k ((j, w) ∷ m) {v} h =
      ground (arith, length-remove_le k m, λ (p : get k m ≡ some v). length-remove_lt k m p)
