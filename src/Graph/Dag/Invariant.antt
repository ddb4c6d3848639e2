-- ===== src/Graph/Dag/Invariant.antt =====
-- src/graph/dag.rs: what holds of every graph that `insert_vx` builds and `remove_vx` cuts.
pub mod Insertion
pub mod Removal
pub mod Failure
use zfx_subzero.Prelude.{◌≡◌, refl, Bool, true, Eq}
use zfx_subzero.Prelude.HashSet.{contains}
use zfx_subzero.Prelude.HashMap
use zfx_subzero.Prelude.HashMap.{contains_key}
use zfx_subzero.Graph.Dag.{Dag, adjacent, new}

-- `g` and `inv` have the same vertices, `inv` holds the edges of `g` turned round, and each vertex
-- has a chit.
pub record IsWellFormed {ℓ} {V : Type ℓ} ⦃e : Eq V⦄ (d : Dag V) : Type ℓ where
  pub same_keys : (u : V) → contains_key u d.g ≡ contains_key u d.inv
  pub mirrored : (u v : V) → contains (adjacent d.g u) v ≡ contains (adjacent d.inv v) u
  pub has_chit : (u : V) → contains_key u d.g ≡ true → contains_key u d.chits ≡ true

pub new-IsWellFormed {ℓ} : {V : Type ℓ} ⦃e : Eq V⦄ → IsWellFormed (new {V = V})
unfolding new contains HashMap.get
new-IsWellFormed = record { same_keys = λ u. refl; mirrored = λ u v. refl; has_chit = λ u h. h }
