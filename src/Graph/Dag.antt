-- ===== src/Graph/Dag.antt =====
-- src/graph/dag.rs: the directed acyclic graph of `sleet` and `hail`. `g` maps a vertex to its
-- parents, `inv` to its children, `chits` to its vote. A method that takes `&mut self` is an action
-- on the graph, so that what it wrote before an early return stays.
pub mod Entries
pub mod Invariant
pub mod Search
use zfx_subzero.Prelude.{
  ℕ, suc, ◌+◌, ◌≡◌, Bool, true, false, not, Option, none, some, List, [], ◌∷◌, ◌++◌, if◌then◌else◌,
  eqb, ltb, length, Result, ok, err, panic, ok_or, unwrap, Eq, ◌==◌,
}
use zfx_subzero.Prelude.HashSet
use zfx_subzero.Prelude.HashSet.{HashSet}
use zfx_subzero.Prelude.HashMap
use zfx_subzero.Prelude.HashMap.{HashMap}
use zfx_subzero.Prelude.Action.{Action, pure, throw, lift, gets, modify, ◌>>=◌, ◌>>◌}
use zfx_subzero.Graph.{
  Error, vertex_exists, vacant_entry, undefined_chit, undefined_vertex, chit_replace, chit_overflow,
}

abbrev pub Adjacency {ℓ} : Type ℓ → Type ℓ
Adjacency V = HashMap V (List V)

pub record Dag {ℓ} (V : Type ℓ) : Type ℓ where
  pub g : Adjacency V
  pub inv : Adjacency V
  pub chits : HashMap V ℕ

unfoldable pub new {ℓ} : {V : Type ℓ} → Dag V
new = record { g = []; inv = []; chits = [] }

module _ {ℓ} {V : Type ℓ} ⦃e : Eq V⦄ where
  -- The edges of a vertex; none for a vertex that is missing.
  abbrev pub adjacent : Adjacency V → V → List V
  adjacent m u = elim (HashMap.get u m) [ none ↦ [] | some edges ↦ edges ]

  -- A loop that edits the entry of each listed vertex, and stops at a vacant one.
  unfoldable pub edit_entries : (List V → List V) → List V → Action (Adjacency V) Error (Unit {0})
  unfolding HashMap.get HashMap.modify
  edit_entries f [] m = (m, ok tt)
  edit_entries f (u ∷ us) m =
      if HashMap.contains_key u m
      then edit_entries f us (HashMap.modify u f m)
      else (m, err vacant_entry)

  -- An action on one of the two adjacency maps.
  abbrev on_g : {A : Type 0} → Action (Adjacency V) Error A → Action (Dag V) Error A
  on_g act d = let (m, r) = act d.g in (record d { g = m }, r)

  abbrev on_inv : {A : Type 0} → Action (Adjacency V) Error A → Action (Dag V) Error A
  on_inv act d = let (m, r) = act d.inv in (record d { inv = m }, r)

  unfoldable pub set_chit : V → ℕ → Action (Dag V) Error (Unit {0})
  unfolding HashMap.get HashMap.insert
  set_chit vx chit d = elim (HashMap.get vx d.chits) [
    | none ↦ (record d { chits = HashMap.insert vx chit d.chits }, ok tt)
    | some old ↦
        if eqb old 1
        then (d, err chit_replace)
        else (record d { chits = HashMap.insert vx chit d.chits }, ok tt)
  ]

  unfoldable pub get_chit : Dag V → V → Result Error ℕ
  unfolding HashMap.get
  get_chit d vx = ok_or (HashMap.get vx d.chits) undefined_chit

  -- The vacant entry of `inv` is filled first.
  abbrev pub open_entry : V → Adjacency V → Adjacency V
  open_entry vx m = if HashMap.contains_key vx m then m else HashMap.insert vx [] m

  unfoldable pub insert_edges : V → List V → Action (Adjacency V) Error (Unit {0})
  unfolding HashMap.get HashMap.insert
  insert_edges vx edges m =
      if HashMap.contains_key vx m
      then (m, err vertex_exists)
      else (HashMap.insert vx edges m, ok tt)

  unfoldable pub insert_vx : V → List V → Action (Dag V) Error (Unit {0})
  unfolding edit_entries insert_edges set_chit
  insert_vx vx edges = do
    modify (λ d. record d { inv = open_entry vx d.inv })
    on_inv (edit_entries (λ children. children ++ vx ∷ []) edges)
    on_g (insert_edges vx edges)
    set_chit vx 0

  unfoldable pub missing : Dag V → List V → List V
  unfolding HashMap.get
  missing d [] = []
  missing d (v ∷ vs) =
      let rest = missing d vs in if HashMap.contains_key v d.g then rest else v ∷ rest

  unfoldable pub has_vertices : Dag V → List V → Result (List V) (Unit {0})
  unfolding missing
  has_vertices d vs = elim (missing d vs) [ [] ↦ ok tt | v ∷ rest ↦ err (v ∷ rest) ]

  -- `vec.retain(|e| e != vx)` is `HashSet.remove vx`.
  unfoldable pub remove_vx : V → Action (Dag V) Error (HashSet V)
  unfolding edit_entries HashMap.get HashMap.remove HashSet.remove HashSet.extend
  remove_vx vx = do
    children ← λ d. lift (ok_or (HashMap.get vx d.inv) undefined_vertex) d
    on_g (edit_entries (HashSet.remove vx) children)
    parents ← λ d. lift (ok_or (HashMap.get vx d.g) undefined_vertex) d
    on_inv (edit_entries (HashSet.remove vx) parents)
    modify (λ d. record d { g = HashMap.remove vx d.g; inv = HashMap.remove vx d.inv })
    pure (HashSet.extend [] children)

  childless : Adjacency V → List V
  childless [] = []
  childless ((v, []) ∷ m) = v ∷ childless m
  childless ((v, _ ∷ _) ∷ m) = childless m

  unfoldable pub leaves : Dag V → List V
  unfolding childless
  leaves d = childless d.inv

  unfoldable pub invert : Dag V → Dag V
  invert d = record { g = d.inv; inv = d.g; chits = d.chits }
