-- ===== src/Graph/Dag/Search/Conviction.antt =====
-- src/graph/dag.rs: `conviction` is the sum of the chits of the progeny, in a `u8`.
use zfx_subzero.Prelude.{
  ℕ, zero, suc, ◌+◌, ◌<◌, ◌≡◌, ap, sym, ◌∙◌, ◌↔◌, true, none, some, List, [], ◌∷◌, arith, length,
  Option-cases, inl, inr, Eq, ==_refl, if◌then◌else◌, ltb, Result, ok, err, ◌>>=◌,
}
use zfx_subzero.Prelude.HashSet.{HashSet, contains, IsDistinct}
use zfx_subzero.Prelude.HashMap
use zfx_subzero.Prelude.HashMap.{contains_key, keys}
use zfx_subzero.Graph.{Error, chit_overflow}
use zfx_subzero.Graph.Dag.{Dag, adjacent, get_chit}
use zfx_subzero.Graph.Dag.Invariant.{IsWellFormed}
use zfx_subzero.Graph.Dag.Search.{checked_add, conviction_loop, conviction}
use zfx_subzero.Graph.Dag.Search.Measure.{unvisited}
use zfx_subzero.Graph.Dag.Search.DepthFirst.{IsClosed, IsWithin, start-IsWithin, start_fuel}
use zfx_subzero.Graph.Dag.Search.BreadthFirst.{
  after, after-IsWithin, after_measure, visits, unwrap-adjacent, start-Walk, start_only,
}
use zfx_subzero.Graph.Dag.Search.Walk.{Reach, Walk-exact}

-- A sum in a `u8`: its value, or the error.
abbrev pub byte_sum : ℕ → Result Error ℕ
byte_sum n = if ltb n 256 then ok n else err chit_overflow

-- An overflow on the way is an overflow of the whole sum.
byte_sum_split :
    (sum chit rest : ℕ) (k : ℕ → Result Error ℕ)
    → (sum + chit < 256 → k (sum + chit) ≡ byte_sum (sum + chit + rest))
    → (checked_add sum chit >>= k) ≡ byte_sum (sum + (chit + rest))
unfolding checked_add
byte_sum_split sum chit rest k h = ground arith

module _ {ℓ} {V : Type ℓ} ⦃e : Eq V⦄ where
  -- The chit of a vertex; 0 for a vertex without one.
  pub chit_of : Dag V → V → ℕ
  chit_of d v = elim (HashMap.get v d.chits) [ none ↦ 0 | some chit ↦ chit ]

  pub total_chits : Dag V → List V → ℕ
  total_chits d [] = 0
  total_chits d (v ∷ vs) = chit_of d v + total_chits d vs

  get_chit-eq_ok :
      (d : Dag V) (v : V) → contains_key v d.chits ≡ true → get_chit d v ≡ ok (chit_of d v)
  unfolding get_chit chit_of
  get_chit-eq_ok d v h = elim (Option-cases (HashMap.get v d.chits)) [
    | inl vacant ↦ cc (rw vacant at h)
    | inr (chit, found) ↦ rw (found, chit_of)
  ]

  module _ (d : Dag V)
      (voted : (u : V) → contains_key u d.inv ≡ true → contains_key u d.chits ≡ true)
      (closed : IsClosed d.inv) where
    conviction_loop-sum :
        (n : ℕ) (queue : List V) (visited : HashSet V) (sum : ℕ)
        → IsWithin d.inv queue
        → length queue + unvisited (keys d.inv) visited < n
        → sum < 256
        → conviction_loop d n queue visited sum
          ≡ byte_sum (sum + total_chits d (visits d.inv n queue visited))
    unfolding conviction_loop visits total_chits
    conviction_loop-sum zero queue visited sum k h s = absurd (omega arith)
    conviction_loop-sum (suc n) [] visited sum k h s = ground arith
    conviction_loop-sum (suc n) (v ∷ rest) visited sum k h s =
        let key = k v (unfold contains in ground (arith, ==_refl v)) in
        rw (get_chit-eq_ok d v (voted v key)) (
          byte_sum_split sum (chit_of d v) _ _ (λ small. rw (unwrap-adjacent d.inv v key) (
            conviction_loop-sum n (after d.inv v rest visited).0 (after d.inv v rest visited).1
              (sum + chit_of d v) (after-IsWithin d.inv v rest visited closed k)
              (omega (arith, after_measure d.inv v rest visited closed)) small)))

  inv_IsClosed : (d : Dag V) → IsWellFormed d → IsClosed d.inv
  unfolding contains
  inv_IsClosed d w u v h = elim (Option-cases (HashMap.get v d.g)) [
    | inl vacant ↦ cc (rw (vacant, adjacent) at (w.mirrored v u ∙ h))
    | inr (edges, found) ↦ sym (w.same_keys v) ∙ rw found
  ]

  -- In a well-formed graph `conviction` sums the chits over the progeny of a vertex, each vertex that
  -- can be reached along the inverted edges once; it is an error exactly if the sum exceeds a byte,
  -- and there is no panic.
  pub conviction-sum :
      (d : Dag V) (vx : V)
      → IsWellFormed d
      → contains_key vx d.g ≡ true
      → (progeny : List V) × IsDistinct progeny
        × ((u : V) → (contains progeny u ≡ true) ↔ Reach d.inv vx u)
        × (conviction d vx ≡ byte_sum (total_chits d progeny))
  unfolding conviction
  conviction-sum d vx w h =
      let closed = inv_IsClosed d w in
      let (distinct, exact) = Walk-exact vx (start_only vx) (start-Walk d.inv vx closed) in
      (
        visits d.inv (suc (suc (length d.inv))) (vx ∷ []) (vx ∷ []),
        distinct,
        exact,
        conviction_loop-sum d (λ u k. w.has_chit u (w.same_keys u ∙ k)) closed
              (suc (suc (length d.inv))) (vx ∷ []) (vx ∷ []) 0
              (start-IsWithin d.inv vx (sym (w.same_keys vx) ∙ h)) (start_fuel d.inv (vx ∷ []))
              (omega arith)
            ∙ ap byte_sum (omega arith),
      )
