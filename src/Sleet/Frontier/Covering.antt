-- ===== src/Sleet/Frontier/Covering.antt =====
-- src/sleet/sleet.rs: what `compute_accepted_frontier` finds.
use zfx_subzero.Prelude.{
  ◌≡◌, refl, sym, subst, ◌∙◌, ap, eqb, eqb_iff, Bool-cases, inl, inr, ◌⊎◌, or-true, List, [], ◌∷◌,
  Bool, true, false, ◌||◌, ok, nat_eq, arith,
}
use zfx_subzero.Prelude.HashSet.{contains, contains-insert, contains-extend}
use zfx_subzero.Prelude.HashMap.{contains_key}
use zfx_subzero.Graph.Dag.{leaves}
use zfx_subzero.Graph.Dag.Invariant.{IsWellFormed}
use zfx_subzero.Graph.Dag.Search.{dfs}
use zfx_subzero.Graph.Dag.Search.Walk.{Reach, here}
use zfx_subzero.Graph.Dag.Search.DepthFirst.{dfs-exact, IsWellFormed-IsClosed}
use zfx_subzero.Graph.Dag.Search.Ancestry.{leaves-contains_key, Reach-contains_key}
use zfx_subzero.Sleet.Tx.{TxHash}
use zfx_subzero.Sleet.State.{Env, Sleet}
use zfx_subzero.Sleet.Ancestors.{
  is_accepted, is_accepted_memo, is_accepted_memo-agrees, IsSound, []-IsSound,
}
use zfx_subzero.Sleet.Frontier.{
  Search, collect, look_at, search_ancestors, search_leaves, compute_accepted_frontier,
}

module _ {env : Env} (s : Sleet env) (w : IsWellFormed s.dag)
    (answers : (u : TxHash)
      → contains_key u s.dag.g ≡ true
      → (b : Bool) × (is_accepted s u ≡ ok b)) where
  -- What holds of the variables all along.
  record IsSearch (v : Search) : Type 0 where
    sound : IsSound s v.memo
    final :
        (f : TxHash)
        → contains v.frontier f ≡ true
        → (is_accepted s f ≡ ok true) × (contains_key f s.dag.g ≡ true)
    under :
        (u : TxHash)
        → contains v.above_frontier u ≡ true
        → (f : TxHash) × (contains v.frontier f ≡ true) × Reach s.dag.g f u

  -- What a search of the transactions of `P` has done.
  record Looked (P : TxHash → Type 0) (v v' : Search) : Type 0 where
    valid : IsSearch v'
    grows : (u : TxHash) → contains v.above_frontier u ≡ true → contains v'.above_frontier u ≡ true
    covers : (u : TxHash) → P u → is_accepted s u ≡ ok true → contains v'.above_frontier u ≡ true

  abbrev In : List TxHash → TxHash → Type 0
  In ts u = contains ts u ≡ true

  alone : (t u : TxHash) → In (t ∷ []) u → t ≡ u
  unfolding contains
  alone t u k = (eqb_iff t u).0 (ground arith)

  Looked-trans :
      {P Q R : TxHash → Type 0} {v v1 v2 : Search}
      → ((u : TxHash) → R u → P u ⊎ Q u)
      → Looked P v v1
      → Looked Q v1 v2
      → Looked R v v2
  Looked-trans f a b = record {
    valid = b.valid;
    grows = λ u k. b.grows u (a.grows u k);
    covers = λ u r h. elim (f u r) [ inl p ↦ b.grows u (a.covers u p h) | inr q ↦ b.covers u q h ];
  }

  collect-IsSearch :
      (t : TxHash) (v : Search)
      → contains_key t s.dag.g ≡ true
      → is_accepted s t ≡ ok true
      → IsSearch v
      → Looked (In (t ∷ [])) v (collect s t v)
  unfolding collect contains
  collect-IsSearch t v key sure i =
      let (_, exact) = dfs-exact s.dag t w key in
      record {
        valid = record {
          sound = i.sound;
          final = λ f k. elim (Bool-cases (eqb t f)) [
            | inl same ↦
                subst (λ x. (is_accepted s x ≡ ok true) × (contains_key x s.dag.g ≡ true))
                  ((eqb_iff t f).0 same) (sure, key)
            | inr other ↦ i.final f (ground (arith, contains-insert t v.frontier f))
          ];
          under = λ u k. elim (Bool-cases (contains v.above_frontier u)) [
            | inl old ↦
                let (f, c, r) = i.under u old in
                (f, ground (arith, contains-insert t v.frontier f), r)
            | inr fresh ↦ (
              t,
              ground (arith, contains-insert t v.frontier t, eqb_iff t t),
              (exact u).0 (ground (arith, contains-extend v.above_frontier (dfs s.dag t) u)),
            )
          ];
        };
        grows = λ u k. ground (arith, contains-extend v.above_frontier (dfs s.dag t) u);
        covers = λ u k h. ground (
          arith,
          contains-extend v.above_frontier (dfs s.dag t) u,
          (exact u).1 (subst (Reach s.dag.g t) (alone t u k) here),
        );
      }

  look_at-Looked :
      (t : TxHash) (v : Search)
      → contains_key t s.dag.g ≡ true
      → IsSearch v
      → (v' : Search) × (look_at s t v ≡ ok v') × Looked (In (t ∷ [])) v v'
  unfolding look_at
  look_at-Looked t v key i = elim (Bool-cases (contains v.above_frontier t)) [
    | inl above ↦ (
      v,
      rw above refl,
      record {
        valid = i;
        grows = λ u k. k;
        covers = λ u k h. subst (λ x. contains v.above_frontier x ≡ true) (alone t u k) above;
      },
    )
    | inr below ↦
        let (agrees, sound) = is_accepted_memo-agrees s t v.memo i.sound in
        let (b, answer) = answers t key in
        let i' : IsSearch (record v { memo = (is_accepted_memo s t v.memo).0 }) = record {
          sound = sound;
          final = i.final;
          under = i.under;
        } in
        elim (Bool-cases b) [
          | inl sure ↦ (
            collect s t (record v { memo = (is_accepted_memo s t v.memo).0 }),
            rw (below, agrees ∙ answer ∙ ap ok sure) refl,
            let l =
                  collect-IsSearch t (record v { memo = (is_accepted_memo s t v.memo).0 }) key
                    (answer ∙ ap ok sure) i' in
                record { valid = l.valid; grows = l.grows; covers = l.covers },
          )
          | inr unsure ↦ (
            record v { memo = (is_accepted_memo s t v.memo).0 },
            rw (below, agrees ∙ answer ∙ ap ok unsure) refl,
            record {
              valid = i';
              grows = λ u k. k;
              covers = λ u k h. absurd (refuted u k h (answer ∙ ap ok unsure));
            },
          )
        ]
  ]
    where
      refuted :
          (u : TxHash) → In (t ∷ []) u → is_accepted s u ≡ ok true → is_accepted s t ≡ ok false → ⊥
      refuted u k h n = cc (rw (sym (alone t u k)) at h, n)

  search_ancestors-Looked :
      (ts : List TxHash) (v : Search)
      → ((u : TxHash) → In ts u → contains_key u s.dag.g ≡ true)
      → IsSearch v
      → (v' : Search) × (search_ancestors s ts v ≡ ok v') × Looked (In ts) v v'
  unfolding search_ancestors contains
  search_ancestors-Looked [] v keys i =
      (v, refl, record { valid = i; grows = λ u k. k; covers = λ u k h. absurd (cc k) })
  search_ancestors-Looked (t ∷ ts) v keys i =
      let (v1, e1, l1) = look_at-Looked t v (keys t (ground (arith, eqb_iff t t))) i in
      let (v2, e2, l2) = search_ancestors-Looked ts v1 (λ u k. keys u (ground arith)) l1.valid in
      (
        v2,
        rw e1 e2,
        Looked-trans (λ u r. or-true (eqb t u || false) (contains ts u) (ground arith)) l1 l2,
      )

  -- The transactions that can be reached from one of the leaves.
  abbrev Below : List TxHash → TxHash → Type 0
  Below ls u = (leaf : TxHash) × In ls leaf × Reach s.dag.g leaf u

  search_leaves-Looked :
      (ls : List TxHash) (v : Search)
      → ((u : TxHash) → In ls u → contains_key u s.dag.g ≡ true)
      → IsSearch v
      → (v' : Search) × (search_leaves s ls v ≡ ok v') × Looked (Below ls) v v'
  unfolding search_leaves contains
  search_leaves-Looked [] v keys i =
      (v, refl, record { valid = i; grows = λ u k. k; covers = λ u k h. absurd (cc k.1) })
  search_leaves-Looked (l ∷ ls) v keys i =
      let key = keys l (ground (arith, eqb_iff l l)) in
      let (_, exact) = dfs-exact s.dag l w key in
      let (v1, e1, l1) =
        search_ancestors-Looked (dfs s.dag l) v
          (λ u k. Reach-contains_key (IsWellFormed-IsClosed s.dag w) key ((exact u).0 k)) i in
      let (v2, e2, l2) = search_leaves-Looked ls v1 (λ u k. keys u (ground arith)) l1.valid in
      (
        v2,
        rw e1 e2,
        Looked-trans
            (λ u (leaf, k, r).
              elim (Bool-cases (eqb l leaf)) as (λ x. In (dfs s.dag l) u ⊎ Below ls u) [
                | inl same ↦
                    inl (
                      (exact u).1
                        (subst (λ x. Reach s.dag.g x u) (sym ((eqb_iff l leaf).0 same)) r))
                | inr other ↦ inr (leaf, ground arith, r)
              ])
            l1 l2,
      )

  -- In a well-formed graph whose transactions all have an answer `compute_accepted_frontier` ends. The
  -- frontier holds accepted transactions of the graph, and each accepted transaction that can be
  -- reached from a leaf can be reached from one of the frontier. The graph stays.
  pub compute_accepted_frontier-covers :
      let (s', r) = compute_accepted_frontier s in
      (r ≡ ok tt)
      × ((f : TxHash)
          → contains s'.accepted_frontier f ≡ true
          → (is_accepted s f ≡ ok true) × (contains_key f s.dag.g ≡ true))
      × ((leaf u : TxHash)
          → contains (leaves s.dag) leaf ≡ true
          → Reach s.dag.g leaf u
          → is_accepted s u ≡ ok true
          → (f : TxHash) × (contains s'.accepted_frontier f ≡ true) × Reach s.dag.g f u)
      × (s'.dag ≡ s.dag)
  unfolding compute_accepted_frontier contains
  compute_accepted_frontier-covers =
      let (v, e, l) =
        search_leaves-Looked (leaves s.dag)
          (record { frontier = []; above_frontier = []; memo = [] })
          (λ u k. w.same_keys u ∙ leaves-contains_key s.dag u k)
          (record {
            sound = []-IsSound s;
            final = λ f k. absurd (cc k);
            under = λ u k. absurd (cc k);
          }) in
      rw (e, compute_accepted_frontier)
        (refl, l.valid.final, λ leaf u k r h. l.valid.under u (l.covers u (leaf, k, r) h), refl)
