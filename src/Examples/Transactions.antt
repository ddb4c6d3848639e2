-- ===== src/Examples/Transactions.antt =====
-- The transactions of src/sleet: a second spender of an output, over the graph of Conflicts.
use zfx_subzero.Prelude.{ℕ, ◌≡◌, refl, true, false, none, some, [], ◌∷◌, ok, arith, nat_eq}
use zfx_subzero.Prelude.HashSet
use zfx_subzero.Prelude.HashSet.{contains}
use zfx_subzero.Prelude.HashMap
use zfx_subzero.Prelude.HashMap.{HashMap}
use zfx_subzero.Cell.Ids.{from_inputs, from_outputs, cell_id, ids_from}
use zfx_subzero.Graph.ConflictGraph.{
  ConflictGraph, ConflictSet, insert_cell, insert_new, spend, enter, open_vertices, link, join_sets,
  vote_in, own_set, first_conflict, new_set,
}
use zfx_subzero.Graph.ConflictGraph.Rivals.{spends, rivals}
use zfx_subzero.Graph.ConflictGraph.Inheritance.{first_of, insert_cell-get_confidence}
use zfx_subzero.Graph.ConflictGraph.Votes.{get_confidence, get_preferred}
use zfx_subzero.Graph.ConflictGraph.Removal.{accept_cell, edit_vertices, remove_cells}
use zfx_subzero.Storage.Txs
use zfx_subzero.Storage.Txs.{KnownTxs}
use zfx_subzero.Sleet.Finality.{cannot_be_accepted, is_accepted_tx, is_accepted_tx-insert_cell}
use zfx_subzero.Examples.Cells.{toy}
use zfx_subzero.Examples.Conflicts.{spender, pending_graph, second_insertion}

-- A cell that is accepted with confidence 20 leaves it to a later cell that spends the same output.
inherited_confidence :
    get_confidence
      (insert_cell toy (spender 20) (accept_cell toy (spender 10) (pending_graph 20)).0).0
      20
    ≡ ok 20
unfolding get_confidence accept_cell edit_vertices remove_cells insert_cell insert_new spend enter
    open_vertices link join_sets vote_in own_set first_conflict new_set from_inputs from_outputs
    cell_id ids_from HashMap.get HashMap.insert HashMap.modify HashSet.extend HashSet.insert
    HashSet.contains HashSet.remove
inherited_confidence = refl

order_fresh : contains (pending_graph 20).insertion_order 20 ≡ false
unfolding contains
order_fresh = refl

first_rival :
    first_of (rivals (pending_graph 20).vertices (from_inputs toy (spender 20).inputs)) (10 ∷ [])
    ≡ some 10
unfolding first_of rivals spends contains from_inputs cell_id HashMap.get HashSet.extend
    HashSet.insert
first_rival = refl

pending_voted :
    HashMap.get 10 (pending_graph 20).cs
    ≡ some (record { conflicts = 10 ∷ []; pref = 10; last = 10; cnt = 20 })
unfolding HashMap.get
pending_voted = refl

insert_cell-get_confidence_example :
    (get_confidence (insert_cell toy (spender 20) (pending_graph 20)).0 20 ≡ ok 20)
    × (get_preferred (insert_cell toy (spender 20) (pending_graph 20)).0 20 ≡ ok 10)
insert_cell-get_confidence_example =
    insert_cell-get_confidence toy (spender 20) (pending_graph 20) 10
      (record { conflicts = 10 ∷ []; pref = 10; last = 10; cnt = 20 }) order_fresh first_rival
      pending_voted second_insertion

-- Storage knows no status of the second spender.
abbrev unread : KnownTxs
unread tx_hash = none

unread_allows : cannot_be_accepted unread 20 ≡ false
unfolding cannot_be_accepted Txs.cannot_be_accepted
unread_allows = refl

is_accepted_tx-insert_cell_example :
    is_accepted_tx unread (insert_cell toy (spender 20) (pending_graph 20)).0 20 ≡ ok true
is_accepted_tx-insert_cell_example =
    is_accepted_tx-insert_cell toy unread (spender 20) (pending_graph 20) 10
      (record { conflicts = 10 ∷ []; pref = 10; last = 10; cnt = 20 }) order_fresh first_rival
      pending_voted (omega arith) unread_allows second_insertion

abbrev voted_set : ℕ → ConflictSet
voted_set n = record { conflicts = 10 ∷ []; pref = 10; last = 10; cnt = n }
