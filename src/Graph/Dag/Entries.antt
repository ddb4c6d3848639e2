-- ===== src/Graph/Dag/Entries.antt =====
-- src/graph/dag.rs: what the loops of `insert_vx` and `remove_vx` over the entries of an adjacency
-- map do to its keys and edges.
use zfx_subzero.Prelude.{
  ◌≡◌, refl, true, not, ◌&&◌, ◌||◌, List, [], ◌∷◌, ◌++◌, arith, Bool-cases, inl, inr, Eq, ◌==◌, ok,
  if◌then◌else◌,
}
use zfx_subzero.Prelude.HashSet
use zfx_subzero.Prelude.HashSet.{contains, contains-append, contains-remove}
use zfx_subzero.Prelude.HashMap
use zfx_subzero.Prelude.HashMap.{contains_key, get-modify, get-insert}
use zfx_subzero.Graph.Dag.{Adjacency, adjacent, edit_entries, open_entry}

module _ {ℓ} {V : Type ℓ} ⦃e : Eq V⦄ where
  -- `insert_vx` adds `vx` to a list of children; `remove_vx` removes it.
  abbrev pub push : V → List V → List V
  push vx children = children ++ vx ∷ []

  pub contains_key-modify :
      (u : V) (f : List V → List V) (m : Adjacency V) (j : V)
      → contains_key j (HashMap.modify u f m) ≡ contains_key j m
  contains_key-modify u f m j = ground (arith, get-modify u f m j)

  pub contains_key-edit :
      (f : List V → List V) (us : List V) (m : Adjacency V) (j : V)
      → contains_key j (edit_entries f us m).0 ≡ contains_key j m
  unfolding edit_entries
  contains_key-edit f [] m j = refl
  contains_key-edit f (u ∷ us) m j =
      ground (arith, contains_key-edit f us (HashMap.modify u f m) j, contains_key-modify u f m j)

  -- The loop ends well exactly if each listed vertex has an entry.
  abbrev pub HasAll : List V → Adjacency V → Type ℓ
  HasAll us m = (j : V) → contains us j ≡ true → contains_key j m ≡ true

  pub edit-ok :
      (f : List V → List V) (us : List V) (m : Adjacency V)
      → HasAll us m
      → (edit_entries f us m).1 ≡ ok tt
  unfolding edit_entries contains
  edit-ok f [] m h = refl
  edit-ok f (u ∷ us) m h = ground (
    arith,
    h u,
    e.eq_iff u u,
    edit-ok f us (HashMap.modify u f m) (λ j k. ground (arith, h j, contains_key-modify u f m j)),
  )

  pub edit-HasAll :
      (f : List V → List V) (us : List V) (m : Adjacency V)
      → (edit_entries f us m).1 ≡ ok tt
      → HasAll us m
  unfolding edit_entries contains
  edit-HasAll f [] m h j k = absurd (cc k)
  edit-HasAll f (u ∷ us) m h j k = ground (
    arith,
    e.eq_iff u j,
    contains_key-modify u f m j,
    λ (p : (edit_entries f us (HashMap.modify u f m)).1 ≡ ok tt) (q : contains us j ≡ true).
        edit-HasAll f us (HashMap.modify u f m) p j q,
  )

  pub adjacent-modify :
      (u : V) (f : List V → List V) (m : Adjacency V) (j : V)
      → contains_key u m ≡ true
      → adjacent (HashMap.modify u f m) j ≡ (if u == j then f (adjacent m j) else adjacent m j)
  adjacent-modify u f m j h = ground (arith, get-modify u f m j, e.eq_iff u j)

  adjacent-modify-push :
      (vx u : V) (m : Adjacency V)
      → contains_key u m ≡ true
      → (j x : V)
      → contains (adjacent (HashMap.modify u (push vx) m) j) x
        ≡ (contains (adjacent m j) x || u == j && vx == x)
  unfolding contains
  adjacent-modify-push vx u m h j x =
      rw (adjacent-modify u (push vx) m j h)
        (ground (arith, contains-append (adjacent m j) (vx ∷ []) x))

  adjacent-modify-remove :
      (vx u : V) (m : Adjacency V)
      → contains_key u m ≡ true
      → (j x : V)
      → contains (adjacent (HashMap.modify u (HashSet.remove vx) m) j) x
        ≡ (contains (adjacent m j) x && not (u == j && vx == x))
  adjacent-modify-remove vx u m h j x =
      rw (adjacent-modify u (HashSet.remove vx) m j h)
        (ground (arith, contains-remove vx (adjacent m j) x))

  pub adjacent-edit_push :
      (vx : V) (us : List V) (m : Adjacency V)
      → (edit_entries (push vx) us m).1 ≡ ok tt
      → (j x : V)
      → contains (adjacent (edit_entries (push vx) us m).0 j) x
        ≡ (contains (adjacent m j) x || contains us j && vx == x)
  unfolding edit_entries contains
  adjacent-edit_push vx [] m h j x = ground arith
  adjacent-edit_push vx (u ∷ us) m h j x = elim (Bool-cases (contains_key u m)) [
    | inl found ↦
        rw (found, adjacent-edit_push vx us (HashMap.modify u (push vx) m) (rw found at h) j x)
          (ground (arith, adjacent-modify-push vx u m found j x))
    | inr vacant ↦ absurd (ground arith)
  ]

  pub adjacent-edit_remove :
      (vx : V) (us : List V) (m : Adjacency V)
      → (edit_entries (HashSet.remove vx) us m).1 ≡ ok tt
      → (j x : V)
      → contains (adjacent (edit_entries (HashSet.remove vx) us m).0 j) x
        ≡ (contains (adjacent m j) x && not (contains us j && vx == x))
  unfolding edit_entries contains
  adjacent-edit_remove vx [] m h j x = ground arith
  adjacent-edit_remove vx (u ∷ us) m h j x = elim (Bool-cases (contains_key u m)) [
    | inl found ↦
        rw
          (
            found,
            adjacent-edit_remove vx us (HashMap.modify u (HashSet.remove vx) m) (rw found at h) j x,
          )
          (ground (arith, adjacent-modify-remove vx u m found j x))
    | inr vacant ↦ absurd (ground arith)
  ]

  pub adjacent-open_entry :
      (vx : V) (m : Adjacency V) (j : V) → adjacent (open_entry vx m) j ≡ adjacent m j
  adjacent-open_entry vx m j = ground (arith, get-insert vx [] m j, e.eq_iff vx j)

  pub contains_key-open_entry :
      (vx : V) (m : Adjacency V) (j : V)
      → contains_key j (open_entry vx m) ≡ (vx == j || contains_key j m)
  contains_key-open_entry vx m j = ground (arith, get-insert vx [] m j, e.eq_iff vx j)
