-- ===== src/Hail/Actor/Acceptance.antt =====
-- src/hail/hail.rs: which vertex `next_accepted_vertex` finds, and what `is_accepted` says.
use zfx_subzero.Prelude.{
  ◌≡◌, refl, sym, subst, ◌∙◌, ap, inl, inr, ◌⊎◌, ◌↔◌, Bool-cases, Option-cases, List, [], ◌∷◌, Bool,
  true, false, ◌||◌, Option, none, some, Result, ok, err, panic, ◌==◌, ==_refl, ==_sound, arith,
}
use zfx_subzero.Prelude.HashSet.{contains, contains-insert}
use zfx_subzero.Prelude.HashMap
use zfx_subzero.Prelude.HashMap.{contains_key}
use zfx_subzero.Prelude.Checks.{all_ok, all_ok-true}
use zfx_subzero.Graph.Dag.{adjacent}
use zfx_subzero.Graph.Dag.Invariant.{IsWellFormed}
use zfx_subzero.Graph.Dag.Search.{dfs}
use zfx_subzero.Graph.Dag.Search.Walk.{Reach}
use zfx_subzero.Graph.Dag.Search.DepthFirst.{dfs-exact}
use zfx_subzero.Hail.{Vertex, Error, vertex_eq}
use zfx_subzero.Hail.ConflictMap.{is_accepted_block}
use zfx_subzero.Hail.Actor.{Env, Hail, judge, is_accepted, accept_first, next_accepted_vertex}

abbrev In : List Vertex → Vertex → Type 0
In vs u = contains vs u ≡ true

judge-true :
    (r own : Result Error Bool) → (judge r own ≡ ok true) ↔ ((own ≡ ok true) × (r ≡ ok true))
judge-true (ok true) own = (λ h. (h, refl), λ h. h.0)
judge-true (ok false) own = (λ h. absurd (cc h), λ h. absurd (cc h.1))
judge-true (err e) own = (λ h. absurd (cc h), λ h. absurd (cc h.1))
judge-true panic own = (λ h. absurd (cc h), λ h. absurd (cc h.1))

module _ {env : Env} where
  abbrev seen : Hail env → Vertex → Bool
  seen s u = contains s.accepted_vertices u

  -- What a search of the vertices of `P` shall end with: the vertex it finds is one of them that is
  -- accepted now and was not before, and is noted; or else each accepted one was before.
  abbrev pub Finds : Hail env → (Vertex → Type 0) → Hail env × Result Error (Option Vertex) → Type 0
  Finds s P out =
      ((v : Vertex) × (out.1 ≡ ok (some v))
        × P v
        × (contains s.accepted_vertices v ≡ false)
        × (is_accepted s v ≡ ok true)
        × ((u : Vertex)
            → contains out.0.accepted_vertices u ≡ (v == u || contains s.accepted_vertices u)))
      ⊎ ((out.1 ≡ ok none)
          × (out.0 ≡ s)
          × ((u : Vertex)
              → P u
              → is_accepted s u ≡ ok true
              → contains s.accepted_vertices u ≡ true))

  pub Finds-map :
      (s : Hail env) {P Q : Vertex → Type 0} {out : Hail env × Result Error (Option Vertex)}
      → ((u : Vertex) → P u → Q u)
      → ((u : Vertex)
          → Q u
          → is_accepted s u ≡ ok true
          → (contains s.accepted_vertices u ≡ true) ⊎ P u)
      → Finds s P out
      → Finds s Q out
  Finds-map s f g (inl (v, e, p, new, sure, noted)) = inl (v, e, f v p, new, sure, noted)
  Finds-map s f g (inr (e, same, all)) =
      inr (e, same, λ u q h. elim (g u q h) [ inl old ↦ old | inr p ↦ all u p h ])

  refuted :
      (s : Hail env) (v u : Vertex)
      → v ≡ u
      → is_accepted s u ≡ ok true
      → is_accepted s v ≡ ok false
      → ⊥
  refuted s v u e a n = cc (subst (λ x. is_accepted s x ≡ ok true) (sym e) a, n)

  accept_first-Finds :
      (vs : List Vertex) (s : Hail env)
      → ((u : Vertex) → In vs u → (b : Bool) × (is_accepted s u ≡ ok b))
      → Finds s (In vs) (accept_first vs s)
  unfolding accept_first contains
  accept_first-Finds [] s h = inr (refl, refl, λ u k a. absurd (cc k))
  accept_first-Finds (v ∷ vs) s h =
      let later = accept_first-Finds vs s (λ u k. h u (ground arith)) in
      let tail : (u : Vertex) → In vs u → In (v ∷ vs) u = λ u k. ground arith in
      elim (Bool-cases (contains s.accepted_vertices v)) [
        | inl old ↦ rw old (
            Finds-map s tail
              (λ u q a. elim (Bool-cases (v == u)) [
                | inl same ↦ inl (subst (λ x. seen s x ≡ true) (==_sound v u same) old)
                | inr other ↦ inr (ground arith)
              ])
              later)
        | inr new ↦
            let (b, answer) = h v (ground (arith, ==_refl v)) in
            rw (new, answer)
              (elim (Bool-cases b) [
                | inl sure ↦ rw sure (
                    inl (
                      v,
                      refl,
                      ground (arith, ==_refl v),
                      new,
                      answer ∙ ap ok sure,
                      λ u. contains-insert v s.accepted_vertices u,
                    ))
                | inr unsure ↦ rw unsure (
                    Finds-map s tail
                      (λ u q a. elim (Bool-cases (v == u)) [
                        | inl same ↦
                            absurd (refuted s v u (==_sound v u same) a (answer ∙ ap ok unsure))
                        | inr other ↦ inr (ground arith)
                      ])
                      later)
              ])
      ]

  -- In a well-formed graph where each vertex that can be reached from `vx` has an answer,
  -- `next_accepted_vertex` ends: it finds one of them that is accepted and was not noted before, and
  -- notes it and no other; or it finds none, changes nothing, and each of them that is accepted was
  -- noted before.
  pub next_accepted_vertex-Finds :
      (vx : Vertex) (s : Hail env)
      → IsWellFormed s.dag
      → contains_key vx s.dag.g ≡ true
      → ((u : Vertex) → Reach s.dag.g vx u → (b : Bool) × (is_accepted s u ≡ ok b))
      → Finds s (Reach s.dag.g vx) (next_accepted_vertex vx s)
  unfolding next_accepted_vertex
  next_accepted_vertex-Finds vx s w key h =
      let (_, exact) = dfs-exact s.dag vx w key in
      Finds-map s (λ u k. (exact u).0 k) (λ u r a. inr ((exact u).1 r))
        (accept_first-Finds (dfs s.dag vx) s (λ u k. h u ((exact u).0 k)))

  -- A vertex of the graph is accepted exactly if it is accepted by itself and so are its parents.
  pub is_accepted_iff :
      (s : Hail env) (v : Vertex)
      → contains_key v s.dag.g ≡ true
      → (is_accepted s v ≡ ok true) ↔ (
          (is_accepted_block s.conflict_map v ≡ ok true)
          × ((p : Vertex)
              → contains (adjacent s.dag.g v) p ≡ true
              → is_accepted_block s.conflict_map p ≡ ok true))
  unfolding is_accepted
  is_accepted_iff s v key = elim (Option-cases (HashMap.get v s.dag.g)) [
    | inl vacant ↦ absurd (cc (rw vacant at key))
    | inr (ps, found) ↦
        let (to, from) = all_ok-true (is_accepted_block s.conflict_map) ps in
        let (split, join) =
          judge-true (all_ok (is_accepted_block s.conflict_map) ps)
            (is_accepted_block s.conflict_map v) in
        rw (found, is_accepted, adjacent)
          (λ h. let (own, all) = split h in (own, to all), λ h. join (h.0, from h.1))
  ]
