-- ===== src/Sleet/Bounded.antt =====
-- src/sleet/sleet/sleet_utils.rs: a set and a map that forget their oldest key.
pub mod Recent
use zfx_subzero.Prelude.{
  ℕ, suc, ◌+◌, ◌≤◌, ◌<◌, ◌≡◌, refl, Bool, true, false, none, some, List, [], ◌∷◌, ◌++◌, arith, leb,
  length, length-append, Bool-cases, inl, inr, if◌then◌else◌, Result, ok, panic, Eq, ◌==◌,
}
use zfx_subzero.Prelude.HashSet
use zfx_subzero.Prelude.HashSet.{HashSet, contains, IsDistinct}
use zfx_subzero.Prelude.HashMap
use zfx_subzero.Prelude.HashMap.{HashMap, contains_key}
use zfx_subzero.Prelude.Action.{Action}

pub record BoundedHashSet {ℓ} (T : Type ℓ) : Type ℓ where
  pub size : ℕ
  pub elems : HashSet T
  pub queue : List T

pub record BoundedHashMap {ℓ κ} (K : Type ℓ) (V : Type κ) : Type (ℓ ⊔ κ) where
  pub size : ℕ
  pub elems : HashMap K V
  pub queue : List K

unfoldable pub new_set {ℓ} : {T : Type ℓ} → ℕ → BoundedHashSet T
new_set size = record { size = size; elems = []; queue = [] }

unfoldable pub new_map {ℓ κ} : {K : Type ℓ} {V : Type κ} → ℕ → BoundedHashMap K V
new_map size = record { size = size; elems = []; queue = [] }

module _ {ℓ μ} {T : Type ℓ} {E : Type μ} ⦃e : Eq T⦄ where
  -- What `insert` does once the element is among the elements; `pop_front().unwrap()` panics on an
  -- empty queue.
  unfoldable pub make_room : T → Action (BoundedHashSet T) E (Unit {0})
  unfolding HashSet.remove
  make_room elem s =
      let room : BoundedHashSet T × Result E (Unit {0}) = elim s.queue [
        | [] ↦ (s, panic)
        | oldest ∷ rest ↦
            (record s { elems = HashSet.remove oldest s.elems; queue = rest ++ elem ∷ [] }, ok tt)
      ] in
      if leb s.size (length s.elems)
      then room
      else (record s { queue = s.queue ++ elem ∷ [] }, ok tt)

  unfoldable pub insert_elem : T → Action (BoundedHashSet T) E (Unit {0})
  unfolding HashSet.contains HashSet.insert
  insert_elem elem s =
      if HashSet.contains s.elems elem
      then (s, ok tt)
      else make_room elem (record s { elems = HashSet.insert elem s.elems })

module _ {ℓ κ μ} {K : Type ℓ} {V : Type κ} {E : Type μ} ⦃e : Eq K⦄ where
  unfoldable pub make_room_for : K → Action (BoundedHashMap K V) E (Unit {0})
  unfolding HashMap.remove
  make_room_for k m =
      let room : BoundedHashMap K V × Result E (Unit {0}) = elim m.queue [
        | [] ↦ (m, panic)
        | oldest ∷ rest ↦
            (record m { elems = HashMap.remove oldest m.elems; queue = rest ++ k ∷ [] }, ok tt)
      ] in
      if leb m.size (length m.elems) then room else (record m { queue = m.queue ++ k ∷ [] }, ok tt)

  unfoldable pub insert_entry : K → V → Action (BoundedHashMap K V) E (Unit {0})
  unfolding make_room_for HashMap.get HashMap.insert
  insert_entry k v m =
      let m' = record m { elems = HashMap.insert k v m.elems } in
      if contains_key k m.elems then (m', ok tt) else make_room_for k m'
