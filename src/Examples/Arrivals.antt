-- ===== src/Examples/Arrivals.antt =====
-- Transactions that arrive at src/sleet/sleet.rs, and the bounded set of src/sleet/sleet/sleet_utils.rs.
use zfx_subzero.Prelude.{
  ℕ, ◌-◌, ◌≡◌, ◌≢◌, refl, eqb, if◌then◌else◌, [], ◌∷◌, true, false, not, ◌&&◌, ◌||◌, some, ok, err,
  nat_eq, arith,
}
use zfx_subzero.Prelude.HashSet.{contains}
use zfx_subzero.Prelude.HashMap
use zfx_subzero.Prelude.HashMap.{HashMap, contains_key}
use zfx_subzero.Graph.{chit_replace}
use zfx_subzero.Graph.Dag.{adjacent, has_vertices, missing}
use zfx_subzero.Graph.Dag.Invariant.{IsWellFormed}
use zfx_subzero.Graph.ConflictGraph.{insert_cell}
use zfx_subzero.Storage.Txs.{is_known_tx, is_removed_tx}
use zfx_subzero.Sleet.{Error, graph}
use zfx_subzero.Sleet.Tx.{TxHash, pending, removed}
use zfx_subzero.Sleet.Bounded.{BoundedHashSet, insert_elem}
use zfx_subzero.Sleet.Bounded.Recent.{IsQueue, push_recent, insert_elem-refines}
use zfx_subzero.Sleet.State.{Sleet, known}
use zfx_subzero.Sleet.Acceptance.{stored}
use zfx_subzero.Sleet.Receiving.{has_coinbase_output, has_parents, is_fresh, on_receive_tx}
use zfx_subzero.Sleet.Receiving.Entering.{with_parts, on_receive_tx-ok_true}
use zfx_subzero.Sleet.Receiving.Reissue.{on_receive_tx-enters, on_receive_tx-stale}
use zfx_subzero.Examples.Cells.{toy}
use zfx_subzero.Examples.Conflicts.{spender, pending_graph, second_insertion}
use zfx_subzero.Examples.Mempool.{env, mempool, second_tx, alone-IsWellFormed}

abbrev two_recent : BoundedHashSet ℕ
two_recent = record { size = 3; elems = 1 ∷ 2 ∷ []; queue = 1 ∷ 2 ∷ [] }

two_recent-IsQueue : IsQueue two_recent
unfolding contains
two_recent-IsQueue = record { same = refl; distinct = (refl, (refl, tt)); bounded = omega arith }

insert_elem-refines_example :
    ((insert_elem {E = Error} 4 two_recent).1 ≡ ok tt)
    × IsQueue (insert_elem {E = Error} 4 two_recent).0
    × ((insert_elem {E = Error} 4 two_recent).0.size ≡ 3)
    × ((insert_elem {E = Error} 4 two_recent).0.queue ≡ push_recent (3 - 1) 4 (1 ∷ 2 ∷ []))
insert_elem-refines_example =
    insert_elem-refines {E = Error} 4 two_recent (omega arith) two_recent-IsQueue

-- The second transaction, new, on the first.
abbrev before : Sleet env
before = mempool [] []

-- The same after it had a chit of 1 and was removed.
abbrev reissued : Sleet env
reissued = mempool ((20, record second_tx { status = removed }) ∷ []) ((20, 1) ∷ [])

second_plain : has_coinbase_output (spender 20) ≡ false
unfolding has_coinbase_output
second_plain = refl

second_new : is_fresh before 20 ≡ ok true
unfolding is_fresh is_known_tx HashMap.get
second_new = refl

second_parents : has_parents before second_tx ≡ true
unfolding has_parents has_vertices missing HashMap.get
second_parents = refl

second_vacant : contains_key 20 before.dag.g ≡ false
unfolding HashMap.get
second_vacant = refl

second_unvoted : HashMap.get 20 before.dag.chits ≢ some 1
unfolding HashMap.get
second_unvoted h = cc h

on_receive_tx-enters_example : (on_receive_tx second_tx before).1 ≡ ok true
on_receive_tx-enters_example =
    on_receive_tx-enters second_tx before (alone-IsWellFormed []) second_plain second_new
      second_parents second_insertion second_vacant second_unvoted

second_enters : (on_receive_tx second_tx before).1 ≡ ok true
second_enters =
    on_receive_tx-enters second_tx before (alone-IsWellFormed []) second_plain second_new
      second_parents second_insertion second_vacant second_unvoted

on_receive_tx-ok_true_example :
    let s' = (on_receive_tx second_tx before).0 in
    (has_coinbase_output (spender 20) ≡ false)
    × (has_parents before second_tx ≡ true)
    × ((u : TxHash)
        → known s' u
          ≡ (if eqb 20 u then some (record second_tx { status = pending }) else known before u))
    × (insert_cell toy (spender 20) (pending_graph 20) ≡ (s'.conflict_graph, ok tt))
    × IsWellFormed s'.dag
    × ((u : TxHash) → contains_key u s'.dag.g ≡ (eqb 20 u || contains_key u before.dag.g))
    × ((u v : TxHash)
        → contains (adjacent s'.dag.g u) v ≡ (
            if eqb 20 u
            then contains (10 ∷ []) v && not (stored before v)
            else contains (adjacent before.dag.g u) v))
    × ((u : TxHash)
        → HashMap.get u s'.dag.chits
          ≡ (if eqb 20 u then some 0 else HashMap.get u before.dag.chits))
    × (s' ≡ with_parts before s'.known_txs s'.conflict_graph s'.dag)
on_receive_tx-ok_true_example =
    on_receive_tx-ok_true second_tx before (alone-IsWellFormed []) second_enters

reissued_fresh : is_fresh reissued 20 ≡ ok true
unfolding is_fresh is_known_tx is_removed_tx HashMap.get
reissued_fresh = refl

reissued_parents : has_parents reissued second_tx ≡ true
unfolding has_parents has_vertices missing HashMap.get
reissued_parents = refl

reissued_vacant : contains_key 20 reissued.dag.g ≡ false
unfolding HashMap.get
reissued_vacant = refl

reissued_voted : HashMap.get 20 reissued.dag.chits ≡ some 1
unfolding HashMap.get
reissued_voted = refl

on_receive_tx-stale_example :
    let (s', r) = on_receive_tx second_tx reissued in
    (r ≡ err (graph chit_replace))
    × ((u : TxHash) → known s' u ≡ known reissued u)
    × (contains_key 20 s'.dag.g ≡ true)
    × (s'.conflict_graph ≡ (insert_cell toy (spender 20) (pending_graph 20)).0)
on_receive_tx-stale_example =
    on_receive_tx-stale second_tx reissued (alone-IsWellFormed ((20, 1) ∷ [])) second_plain
      reissued_fresh reissued_parents second_insertion reissued_vacant reissued_voted
