-- ===== src/Sleet/Acceptance/Exact.antt =====
-- src/sleet/sleet.rs: `compute_accepted_txs` returns and marks what became accepted.
use zfx_subzero.Prelude.{
  ◌≡◌, refl, sym, ◌∙◌, ◌↔◌, [], List, ◌≤◌, Bool, true, false, ◌&&◌, ◌||◌, some, ok, nat_eq, arith,
}
use zfx_subzero.Prelude.HashSet.{contains, IsDistinct}
use zfx_subzero.Prelude.HashMap.{contains_key}
use zfx_subzero.Graph.Dag.Invariant.{IsWellFormed}
use zfx_subzero.Graph.Dag.Search.{dfs}
use zfx_subzero.Graph.Dag.Search.Walk.{Reach}
use zfx_subzero.Graph.Dag.Search.DepthFirst.{dfs-exact, IsWellFormed-IsClosed}
use zfx_subzero.Sleet.Tx.{TxHash, Tx}
use zfx_subzero.Sleet.Bounded.Recent.{IsQueue}
use zfx_subzero.Sleet.Finality.{is_accepted_tx}
use zfx_subzero.Sleet.State.{Env, Sleet, known}
use zfx_subzero.Sleet.Ancestors.{is_accepted, []-IsSound, is_accepted_iff}
use zfx_subzero.Sleet.Acceptance.{stored, newly, compute_accepted_txs}
use zfx_subzero.Graph.Dag.Search.Ancestry.{Reach-trans, Reach-contains_key}
use zfx_subzero.Sleet.Acceptance.Newly.{IsReady, newly-is_accepted, compute_loop-Accepts}

module _ {env : Env} where
  -- In a well-formed graph whose transactions that can be reached from `tx` are all in storage and
  -- all have an answer by themselves, `compute_accepted_txs` ends with a list without repetitions:
  -- those that can be reached, are accepted with all their ancestors, and are not yet accepted in
  -- storage. Storage afterwards has those as accepted besides what it had, and no others; the graphs
  -- stay.
  pub compute_accepted_txs-exact :
      (s : Sleet env) (tx : TxHash)
      → IsWellFormed s.dag
      → contains_key tx s.dag.g ≡ true
      → ((u : TxHash) → Reach s.dag.g tx u → (t : Tx) × (known s u ≡ some t))
      → ((u : TxHash)
          → Reach s.dag.g tx u
          → (b : Bool) × (is_accepted_tx (known s) s.conflict_graph u ≡ ok b))
      → IsQueue s.accepted_txs
      → 2 ≤ s.accepted_txs.size
      → let (s', r) = compute_accepted_txs tx s in
        (found : List TxHash) × (r ≡ ok found)
        × IsDistinct found
        × ((u : TxHash)
            → (contains found u ≡ true)
              ↔ (Reach s.dag.g tx u × (stored s u ≡ false) × (is_accepted s u ≡ ok true)))
        × ((u : TxHash) → stored s' u ≡ (stored s u || contains found u))
        × (s'.dag ≡ s.dag)
        × (s'.conflict_graph ≡ s.conflict_graph)
  unfolding compute_accepted_txs
  compute_accepted_txs-exact s tx w key in_storage answers q room =
      let (distinct, exact) = dfs-exact s.dag tx w key in
      let within = λ (u : TxHash) (r : Reach s.dag.g tx u).
        Reach-contains_key (IsWellFormed-IsClosed s.dag w) key r in
      let ready : IsReady s (dfs s.dag tx) = record {
        well_formed = w;
        present = λ u k. within u ((exact u).0 k);
        in_storage = λ u k. in_storage u ((exact u).0 k);
        answers = λ u k.
            let r = (exact u).0 k in
            (is_accepted_iff s u w (within u r)).2 (λ v p. answers v (Reach-trans r p));
        queue = q;
        room = room;
      } in
      let a = compute_loop-Accepts (dfs s.dag tx) [] [] s distinct ([]-IsSound s) ready in
      (
        a.found,
        a.ends,
        a.distinct,
        λ u. (
          λ c.
              let both : (contains (dfs s.dag tx) u && newly s u) ≡ true = sym (a.exact u) ∙ c in
              ((exact u).0 (ground arith), ground arith, newly-is_accepted s u (ground arith)),
          λ (r, fresh, sure). a.exact u ∙ rw ((exact u).1 r, fresh, sure) refl,
        ),
        a.stores,
        a.same_dag,
        a.same_graph,
      )
