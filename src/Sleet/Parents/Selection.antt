-- ===== src/Sleet/Parents/Selection.antt =====
-- src/sleet/sleet.rs: what `select_parents` chooses.
use zfx_subzero.Prelude.{
  ℕ, ◌≤◌, ◌≡◌, refl, subst, ◌∙◌, ap, eqb, eqb_iff, Bool-cases, inl, inr, List, [], ◌∷◌, Bool, true,
  false, not, ◌&&◌, Result, ok, nat_eq, arith, leb, length, length-append,
}
use zfx_subzero.Prelude.HashSet.{contains, contains-append}
use zfx_subzero.Prelude.HashMap
use zfx_subzero.Prelude.HashMap.{contains_key}
use zfx_subzero.Graph.Dag.{leaves}
use zfx_subzero.Graph.Dag.Invariant.{IsWellFormed}
use zfx_subzero.Graph.Dag.Search.{dfs}
use zfx_subzero.Graph.Dag.Search.DepthFirst.{dfs-exact, IsWellFormed-IsClosed}
use zfx_subzero.Graph.Dag.Search.Ancestry.{leaves-contains_key, Reach-contains_key}
use zfx_subzero.Sleet.{Error}
use zfx_subzero.Sleet.Tx.{TxHash}
use zfx_subzero.Sleet.State.{Env, Sleet}
use zfx_subzero.Sleet.Ancestors.{is_strongly_preferred}
use zfx_subzero.Sleet.Parents.{
  Choices, choose, prefer_leaves, prefer_ancestor, prefer_ancestors, select_parents,
}

module _ {env : Env} (s : Sleet env) (p : ℕ) (w : IsWellFormed s.dag)
    (answers : (u : TxHash)
      → contains_key u s.dag.g ≡ true
      → (b : Bool) × (is_strongly_preferred s u ≡ ok b)) where
  record IsChoice (c : Choices) : Type 0 where
    short : length c.parents ≤ p
    preferred :
        (u : TxHash)
        → contains c.parents u ≡ true
        → (is_strongly_preferred s u ≡ ok true) × (contains_key u s.dag.g ≡ true)

  -- A loop that ends, with choices again.
  abbrev Chooses : Result Error Choices → Type 0
  Chooses r = (c : Choices) × (r ≡ ok c) × IsChoice c

  abbrev AreVertices : List TxHash → Type 0
  AreVertices vs = (u : TxHash) → contains vs u ≡ true → contains_key u s.dag.g ≡ true

  choose-IsChoice :
      (t : TxHash) (c : Choices)
      → leb p (length c.parents) ≡ false
      → is_strongly_preferred s t ≡ ok true
      → contains_key t s.dag.g ≡ true
      → IsChoice c
      → IsChoice (choose s t c)
  unfolding choose contains
  choose-IsChoice t c room sure key i = record {
    short = ground (arith, length-append c.parents (t ∷ []), room);
    preferred = λ u k. elim (Bool-cases (eqb t u)) [
      | inl same ↦
          subst (λ x. (is_strongly_preferred s x ≡ ok true) × (contains_key x s.dag.g ≡ true))
            ((eqb_iff t u).0 same) (sure, key)
      | inr other ↦ i.preferred u (ground (arith, contains-append c.parents (t ∷ []) u))
    ];
  }

  prefer_leaves-Chooses :
      (ls : List TxHash) (c : Choices)
      → AreVertices ls
      → IsChoice c
      → Chooses (prefer_leaves s p ls c)
  unfolding prefer_leaves contains
  prefer_leaves-Chooses [] c keys i = (c, refl, i)
  prefer_leaves-Chooses (l ∷ ls) c keys i = elim (Bool-cases (leb p (length c.parents))) [
    | inl full ↦ rw full (c, refl, i)
    | inr room ↦
        let key = keys l (ground (arith, eqb_iff l l)) in
        let (b, answer) = answers l key in
        rw (room, answer)
          (elim (Bool-cases b) [
            | inl sure ↦ rw sure (
                prefer_leaves-Chooses ls (choose s l c) (λ u k. keys u (ground arith))
                  (choose-IsChoice l c room (answer ∙ ap ok sure) key i))
            | inr unsure ↦ rw unsure (prefer_leaves-Chooses ls c (λ u k. keys u (ground arith)) i)
          ])
  ]

  prefer_ancestor-Chooses :
      (ts : List TxHash) (c : Choices)
      → AreVertices ts
      → IsChoice c
      → Chooses (prefer_ancestor s p ts c)
  unfolding prefer_ancestor contains
  prefer_ancestor-Chooses [] c keys i = (c, refl, i)
  prefer_ancestor-Chooses (t ∷ ts) c keys i = elim (Bool-cases (leb p (length c.parents))) [
    | inl full ↦ rw full (c, refl, i)
    | inr room ↦
        let key = keys t (ground (arith, eqb_iff t t)) in
        let (b, answer) = answers t key in
        let later = prefer_ancestor-Chooses ts c (λ u k. keys u (ground arith)) i in
        rw (room, answer)
          (elim (Bool-cases (b && not (contains c.parents t) && not (contains c.accessible t))) [
            | inl chosen ↦
                rw chosen (
                  choose s t c,
                  refl,
                  choose-IsChoice t c room (answer ∙ ap ok (ground arith)) key i,
                )
            | inr passed ↦ rw passed later
          ])
  ]

  prefer_ancestors-Chooses :
      (ls : List TxHash) (c : Choices)
      → AreVertices ls
      → IsChoice c
      → Chooses (prefer_ancestors s p ls c)
  unfolding prefer_ancestors contains
  prefer_ancestors-Chooses [] c keys i = (c, refl, i)
  prefer_ancestors-Chooses (l ∷ ls) c keys i =
      let key = keys l (ground (arith, eqb_iff l l)) in
      let (_, exact) = dfs-exact s.dag l w key in
      let (c1, e1, i1) =
        prefer_ancestor-Chooses (dfs s.dag l) c
          (λ u k. Reach-contains_key (IsWellFormed-IsClosed s.dag w) key ((exact u).0 k)) i in
      rw e1 (prefer_ancestors-Chooses ls c1 (λ u k. keys u (ground arith)) i1)

  -- In a well-formed graph whose transactions all have an answer `select_parents` ends with at most
  -- `p` transactions of the graph, each strongly preferred.
  pub select_parents-preferred :
      (parents : List TxHash) × (select_parents s p ≡ ok parents)
      × (length parents ≤ p)
      × ((u : TxHash)
          → contains parents u ≡ true
          → (is_strongly_preferred s u ≡ ok true) × (contains_key u s.dag.g ≡ true))
  unfolding select_parents contains
  select_parents-preferred =
      let keys : AreVertices (leaves s.dag) =
        λ u k. w.same_keys u ∙ leaves-contains_key s.dag u k in
      let (c1, e1, i1) =
        prefer_leaves-Chooses (leaves s.dag) (record { parents = []; accessible = [] }) keys
          (record { short = omega arith; preferred = λ u k. absurd (cc k) }) in
      let (c2, e2, i2) = prefer_ancestors-Chooses (leaves s.dag) c1 keys i1 in
      elim (Bool-cases (HashMap.is_empty s.dag.g)) [
        | inl empty ↦ ([], rw empty refl, omega arith, λ u k. absurd (cc k))
        | inr filled ↦ (c2.parents, rw (filled, e1) (rw e2 refl), i2.short, i2.preferred)
      ]
