-- ===== src/Cell/Maps.antt =====
-- Maps from sets of cell ids, as src/graph/dependency_graph.rs and src/alpha/state.rs keep them, and
-- the comparison `eq` of src/cell/cell_ids.rs: two sets are equal if they hold the same ids.
use zfx_subzero.Prelude.{
  ◌≡◌, refl, arith, nat_eq, ==_refl, Bool, true, false, ◌&&◌, Option, none, some, List, [], ◌∷◌,
  if◌then◌else◌,
}
use zfx_subzero.Prelude.HashSet
use zfx_subzero.Cell.Types.{CellId}
use zfx_subzero.Cell.Ids.{CellIds, left_difference}

abbrev is_empty {ℓ} : {A : Type ℓ} → List A → Bool
is_empty [] = true
is_empty (x ∷ xs) = false

is_empty-contains : (a : CellIds) (id : CellId) → is_empty a ≡ true → HashSet.contains a id ≡ false
unfolding HashSet.contains
is_empty-contains [] id h = refl
is_empty-contains (x ∷ xs) id h = absurd (cc h)

unfoldable pub same_ids : CellIds → CellIds → Bool
same_ids a b = is_empty (left_difference a b) && is_empty (left_difference b a)

difference_within :
    (a b : CellIds)
    → ((id : CellId) → HashSet.contains a id ≡ true → HashSet.contains b id ≡ true)
    → is_empty (left_difference a b) ≡ true
unfolding left_difference HashSet.difference HashSet.contains
difference_within [] b h = refl
difference_within (x ∷ xs) b h =
    let here = h x (ground (arith, ==_refl x)) in
    rw here (difference_within xs b (λ id k. h id (ground arith)))

pub same_ids_refl : (a : CellIds) → same_ids a a ≡ true
unfolding same_ids
same_ids_refl a = let within = difference_within a a (λ id h. h) in ground arith

-- Equal sets hold the same ids.
pub same_ids-contains :
    (a b : CellIds) (id : CellId)
    → same_ids a b ≡ true
    → HashSet.contains b id ≡ true
    → HashSet.contains a id ≡ true
unfolding same_ids left_difference
same_ids-contains a b id h k =
    let none_left : HashSet.contains (HashSet.difference b a) id ≡ false =
      is_empty-contains (HashSet.difference b a) id (ground arith) in
    ground (arith, HashSet.contains-difference b a id)

pub same_ids-contained :
    (a b : CellIds) (id : CellId)
    → same_ids a b ≡ true
    → HashSet.contains a id ≡ true
    → HashSet.contains b id ≡ true
unfolding same_ids left_difference
same_ids-contained a b id h k =
    let none_left : HashSet.contains (HashSet.difference a b) id ≡ false =
      is_empty-contains (HashSet.difference a b) id (ground arith) in
    ground (arith, HashSet.contains-difference a b id)

abbrev pub IdsMap {ℓ} : Type ℓ → Type ℓ
IdsMap V = List (CellIds × V)

module _ {ℓ} {V : Type ℓ} where
  unfoldable pub get : CellIds → IdsMap V → Option V
  get k [] = none
  get k ((j, v) ∷ m) = if same_ids j k then some v else get k m

  -- The key that stands in the map stays, as in std.
  unfoldable pub insert : CellIds → V → IdsMap V → IdsMap V
  insert k v [] = (k, v) ∷ []
  insert k v ((j, w) ∷ m) =
      let rest = insert k v m in if same_ids j k then (j, v) ∷ m else (j, w) ∷ rest
