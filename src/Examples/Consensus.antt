-- ===== src/Examples/Consensus.antt =====
-- The consensus of src/sleet/sleet.rs on the state of Mempool, whose one transaction has 20 votes.
use zfx_subzero.Prelude.{
  ◌≤◌, ◌≡◌, refl, subst, ◌↔◌, List, [], ◌∷◌, Bool, true, false, ◌||◌, some, ok, nat_eq, arith,
  length,
}
use mathlib.Core.Option
use zfx_subzero.Prelude.HashSet.{contains, IsDistinct}
use zfx_subzero.Prelude.HashMap
use zfx_subzero.Prelude.HashMap.{contains_key}
use zfx_subzero.Graph.Dag.{leaves}
use zfx_subzero.Graph.Dag.Search.Walk.{Reach}
use zfx_subzero.Graph.ConflictGraph.{ConflictSet, is_singleton_set}
use zfx_subzero.Graph.ConflictGraph.Votes.{is_preferred, get_confidence, is_singleton}
use zfx_subzero.Storage.Txs
use zfx_subzero.Sleet.Tx.{Tx, TxHash}
use zfx_subzero.Sleet.Bounded.{new_set}
use zfx_subzero.Sleet.Bounded.Recent.{IsQueue, new_set-IsQueue}
use zfx_subzero.Sleet.Finality
use zfx_subzero.Sleet.Finality.{is_accepted_tx}
use zfx_subzero.Sleet.State.{Sleet, known}
use zfx_subzero.Sleet.Ancestors.{
  is_strongly_preferred, is_accepted, is_accepted_memo, IsSound, []-IsSound,
  is_strongly_preferred_iff, is_accepted_memo-agrees,
}
use zfx_subzero.Sleet.Acceptance.{stored, compute_accepted_txs}
use zfx_subzero.Sleet.Acceptance.Exact.{compute_accepted_txs-exact}
use zfx_subzero.Sleet.Frontier.{compute_accepted_frontier}
use zfx_subzero.Sleet.Frontier.Covering.{compute_accepted_frontier-covers}
use zfx_subzero.Sleet.Parents.{select_parents}
use zfx_subzero.Sleet.Parents.Selection.{select_parents-preferred}
use zfx_subzero.Sleet.Votes.{reset_ancestor_confidence}
use zfx_subzero.Sleet.Votes.Reset.{zeroed, with_sets, reset_ancestor_confidence-get}
use zfx_subzero.Sleet.Conflicts.{remove_progeny}
use zfx_subzero.Sleet.Conflicts.Ending.{Drains, remove_progeny-Drains}
use zfx_subzero.Examples.Mempool.{
  env, mempool, first_tx, alone-IsWellFormed, only_first, first_present, Reach-first,
  first_preferred, first_accepted,
}

abbrev now : Sleet env
now = mempool [] []

is_strongly_preferred_iff_example :
    ((is_strongly_preferred now 10 ≡ ok true)
      ↔ ((u : TxHash) → Reach now.dag.g 10 u → is_preferred now.conflict_graph u ≡ ok true))
    × (is_strongly_preferred now 10 ≡ ok false
        → (u : TxHash) × Reach now.dag.g 10 u × (is_preferred now.conflict_graph u ≡ ok false))
is_strongly_preferred_iff_example =
    is_strongly_preferred_iff now 10 (alone-IsWellFormed []) (first_present [])

is_accepted_memo-agrees_example :
    ((is_accepted_memo now 10 []).1 ≡ is_accepted now 10)
    × IsSound now (is_accepted_memo now 10 []).0
is_accepted_memo-agrees_example = is_accepted_memo-agrees now 10 [] ([]-IsSound now)

first_stored : (u : TxHash) → Reach now.dag.g 10 u → (t : Tx) × (known now u ≡ some t)
unfolding HashMap.get
first_stored u r =
    subst (λ x. (t : Tx) × (known now x ≡ some t)) (Reach-first [] u r) (first_tx, refl)

first_final : is_accepted_tx (known now) now.conflict_graph 10 ≡ ok true
unfolding is_accepted_tx get_confidence is_singleton is_singleton_set Finality.is_accepted
    Finality.cannot_be_accepted Txs.is_accepted_tx Txs.cannot_be_accepted HashMap.get
first_final = refl

first_answered :
    (u : TxHash)
    → Reach now.dag.g 10 u
    → (b : Bool) × (is_accepted_tx (known now) now.conflict_graph u ≡ ok b)
first_answered u r =
    subst (λ x. (b : Bool) × (is_accepted_tx (known now) now.conflict_graph x ≡ ok b))
      (Reach-first [] u r) (true, first_final)

empty-IsQueue : IsQueue now.accepted_txs
unfolding new_set
empty-IsQueue = new_set-IsQueue {T = TxHash} 3000 (omega arith)

compute_accepted_txs-exact_example :
    let (s', r) = compute_accepted_txs 10 now in
    (found : List TxHash) × (r ≡ ok found)
    × IsDistinct found
    × ((u : TxHash)
        → (contains found u ≡ true)
          ↔ (Reach now.dag.g 10 u × (stored now u ≡ false) × (is_accepted now u ≡ ok true)))
    × ((u : TxHash) → stored s' u ≡ (stored now u || contains found u))
    × (s'.dag ≡ now.dag)
    × (s'.conflict_graph ≡ now.conflict_graph)
compute_accepted_txs-exact_example =
    compute_accepted_txs-exact now 10 (alone-IsWellFormed []) (first_present []) first_stored
      first_answered empty-IsQueue (omega arith)

all_accepted :
    (u : TxHash) → contains_key u now.dag.g ≡ true → (b : Bool) × (is_accepted now u ≡ ok b)
all_accepted u k =
    subst (λ x. (b : Bool) × (is_accepted now x ≡ ok b)) (only_first [] u k) (true, first_accepted)

compute_accepted_frontier-covers_example :
    let (s', r) = compute_accepted_frontier now in
    (r ≡ ok tt)
    × ((f : TxHash)
        → contains s'.accepted_frontier f ≡ true
        → (is_accepted now f ≡ ok true) × (contains_key f now.dag.g ≡ true))
    × ((leaf u : TxHash)
        → contains (leaves now.dag) leaf ≡ true
        → Reach now.dag.g leaf u
        → is_accepted now u ≡ ok true
        → (f : TxHash) × (contains s'.accepted_frontier f ≡ true) × Reach now.dag.g f u)
    × (s'.dag ≡ now.dag)
compute_accepted_frontier-covers_example =
    compute_accepted_frontier-covers now (alone-IsWellFormed []) all_accepted

all_preferred :
    (u : TxHash)
    → contains_key u now.dag.g ≡ true
    → (b : Bool) × (is_strongly_preferred now u ≡ ok b)
all_preferred u k =
    subst (λ x. (b : Bool) × (is_strongly_preferred now x ≡ ok b)) (only_first [] u k)
      (true, first_preferred)

select_parents-preferred_example :
    (parents : List TxHash) × (select_parents now 3 ≡ ok parents)
    × (length parents ≤ 3)
    × ((u : TxHash)
        → contains parents u ≡ true
        → (is_strongly_preferred now u ≡ ok true) × (contains_key u now.dag.g ≡ true))
select_parents-preferred_example =
    select_parents-preferred now 3 (alone-IsWellFormed []) all_preferred

remove_progeny-Drains_example : Drains (10 ∷ []) now (remove_progeny 2 (10 ∷ []) now)
remove_progeny-Drains_example = remove_progeny-Drains 2 (10 ∷ []) now (omega arith)

first_voted :
    (u : TxHash)
    → Reach now.dag.g 10 u
    → (set : ConflictSet) × (HashMap.get u now.conflict_graph.cs ≡ some set)
unfolding HashMap.get
first_voted u r =
    subst (λ x. (set : ConflictSet) × (HashMap.get x now.conflict_graph.cs ≡ some set))
      (Reach-first [] u r) (record { conflicts = 10 ∷ []; pref = 10; last = 10; cnt = 20 }, refl)

reset_ancestor_confidence-get_example :
    let (s', r) = reset_ancestor_confidence 10 now in
    (r ≡ ok tt)
    × ((u : TxHash)
        → Reach now.dag.g 10 u
        → HashMap.get u s'.conflict_graph.cs
          ≡ Option.map zeroed (HashMap.get u now.conflict_graph.cs))
    × ((u : TxHash)
        → ¬ Reach now.dag.g 10 u
        → HashMap.get u s'.conflict_graph.cs ≡ HashMap.get u now.conflict_graph.cs)
    × (s' ≡ with_sets now s'.conflict_graph.cs)
reset_ancestor_confidence-get_example =
    reset_ancestor_confidence-get 10 now (alone-IsWellFormed []) (first_present []) first_voted
