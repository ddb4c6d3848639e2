-- ===== src/Sleet/Votes/Reset.antt =====
-- src/sleet/sleet.rs: what `reset_ancestor_confidence` does to the conflict sets.
use zfx_subzero.Prelude.{
  ◌≡◌, refl, ◌∙◌, eqb, eqb_iff, Bool-cases, inl, inr, if◌then◌else◌, List, [], ◌∷◌, true, some,
  Result, ok, nat_eq, arith, ltb, length,
}
use mathlib.Core.Option
use zfx_subzero.Prelude.HashSet.{contains}
use zfx_subzero.Prelude.HashMap
use zfx_subzero.Prelude.HashMap.{HashMap, contains_key, get-insert}
use zfx_subzero.Graph.Dag.Invariant.{IsWellFormed}
use zfx_subzero.Graph.Dag.Search.{dfs}
use zfx_subzero.Graph.Dag.Search.Walk.{Reach}
use zfx_subzero.Graph.Dag.Search.DepthFirst.{dfs-exact}
use zfx_subzero.Graph.ConflictGraph.{ConflictGraph, ConflictSet}
use zfx_subzero.Graph.ConflictGraph.Votes.{reset_count}
use zfx_subzero.Sleet.{Error}
use zfx_subzero.Sleet.Tx.{TxHash}
use zfx_subzero.Sleet.State.{Env, Sleet}
use zfx_subzero.Sleet.Votes.{for_each, try_graph, reset_ancestor_confidence}

abbrev pub zeroed : ConflictSet → ConflictSet
zeroed set = record set { cnt = 0 }

nonempty :
    (cs : HashMap TxHash ConflictSet) (h : TxHash) {set : ConflictSet}
    → HashMap.get h cs ≡ some set
    → ltb 0 (length cs) ≡ true
unfolding HashMap.get
nonempty [] h e = absurd (cc e)
nonempty (x ∷ cs) h e = ground arith

reset_count-eq :
    (graph : ConflictGraph) (h : TxHash) {set : ConflictSet}
    → HashMap.get h graph.cs ≡ some set
    → reset_count h graph ≡ ok (record graph { cs = HashMap.insert h (zeroed set) graph.cs })
unfolding reset_count
reset_count-eq graph h e = rw (nonempty graph.cs h e) (rw e refl)

module _ {env : Env} where
  -- The state with other conflict sets.
  abbrev pub with_sets : Sleet env → HashMap TxHash ConflictSet → Sleet env
  with_sets s cs = record s { conflict_graph = record s.conflict_graph { cs = cs } }

  -- The sets after the sets of `ts` are reset.
  record Resets (ts : List TxHash) (s : Sleet env) (out : Sleet env × Result Error (Unit {0}))
      : Type 0 where
    ends : out.1 ≡ ok tt
    sets :
        (j : TxHash)
        → HashMap.get j out.0.conflict_graph.cs ≡ (
            if contains ts j
            then Option.map zeroed (HashMap.get j s.conflict_graph.cs)
            else HashMap.get j s.conflict_graph.cs)
    same_rest : out.0 ≡ with_sets s out.0.conflict_graph.cs

  loop-Resets :
      (ts : List TxHash) (s : Sleet env)
      → ((u : TxHash)
          → contains ts u ≡ true
          → (set : ConflictSet) × (HashMap.get u s.conflict_graph.cs ≡ some set))
      → Resets ts s (for_each (λ tx_hash. try_graph (reset_count tx_hash)) ts s)
  unfolding for_each contains
  loop-Resets [] s h = record { ends = refl; sets = λ j. refl; same_rest = refl }
  loop-Resets (t ∷ ts) s h =
      let (set, found) = h t (ground (arith, eqb_iff t t)) in
      let cs' = HashMap.insert t (zeroed set) s.conflict_graph.cs in
      let s1 : Sleet env = record s { conflict_graph = record s.conflict_graph { cs = cs' } } in
      let r = loop-Resets ts s1 (λ u k. elim (Bool-cases (eqb t u)) [
        | inl same ↦ (zeroed set, ground (arith, get-insert t (zeroed set) s.conflict_graph.cs u))
        | inr other ↦
            let (set_u, got) = h u (ground arith) in
            (set_u, ground (arith, get-insert t (zeroed set) s.conflict_graph.cs u))
      ]) in
      rw (reset_count-eq s.conflict_graph t found) record {
        ends = r.ends;
        sets = λ j.
            r.sets j
            ∙ ground (arith, get-insert t (zeroed set) s.conflict_graph.cs j, eqb_iff t j, found);
        same_rest = r.same_rest;
      }

  -- In a well-formed graph whose transactions that can be reached from `root` all have a conflict
  -- set, the reset ends; it sets the count of exactly those sets to 0, and changes nothing else of
  -- them; the state is otherwise as before, also the conflict graph apart from its sets.
  pub reset_ancestor_confidence-get :
      (root : TxHash) (s : Sleet env)
      → IsWellFormed s.dag
      → contains_key root s.dag.g ≡ true
      → ((u : TxHash)
          → Reach s.dag.g root u
          → (set : ConflictSet) × (HashMap.get u s.conflict_graph.cs ≡ some set))
      → let (s', r) = reset_ancestor_confidence root s in
        (r ≡ ok tt)
        × ((u : TxHash)
            → Reach s.dag.g root u
            → HashMap.get u s'.conflict_graph.cs
              ≡ Option.map zeroed (HashMap.get u s.conflict_graph.cs))
        × ((u : TxHash)
            → ¬ Reach s.dag.g root u
            → HashMap.get u s'.conflict_graph.cs ≡ HashMap.get u s.conflict_graph.cs)
        × (s' ≡ with_sets s s'.conflict_graph.cs)
  unfolding reset_ancestor_confidence
  reset_ancestor_confidence-get root s w key h =
      let (_, exact) = dfs-exact s.dag root w key in
      let r = loop-Resets (dfs s.dag root) s (λ u k. h u ((exact u).0 k)) in
      (
        r.ends,
        λ u k. r.sets u ∙ rw ((exact u).1 k) refl,
        λ u k. r.sets u ∙ elim (Bool-cases (contains (dfs s.dag root) u)) [
          | inl there ↦ absurd (k ((exact u).0 there))
          | inr absent ↦ rw absent refl
        ],
        r.same_rest,
      )
