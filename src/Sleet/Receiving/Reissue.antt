-- ===== src/Sleet/Receiving/Reissue.antt =====
-- src/sleet/sleet.rs: `on_receive_tx` of a transaction whose parents are there: the first time, and
-- again after it was removed.
use zfx_subzero.Prelude.{
  ◌≡◌, refl, subst, ◌≢◌, eqb, eqb_iff, Bool-cases, inl, inr, List, [], ◌∷◌, Bool, true, false, not,
  ◌&&◌, some, Result, ok, err, panic, nat_eq, arith,
}
use zfx_subzero.Prelude.HashSet.{contains, contains-retain}
use zfx_subzero.Prelude.HashMap
use zfx_subzero.Prelude.HashMap.{contains_key}
use zfx_subzero.Graph.Dag.{Dag, has_vertices, missing, insert_vx}
use zfx_subzero.Graph.Dag.Invariant.{IsWellFormed}
use zfx_subzero.Graph.Dag.Invariant.Insertion.{insert_vx-ok_iff}
use zfx_subzero.Graph.ConflictGraph.{insert_cell}
use zfx_subzero.Sleet.{graph}
use zfx_subzero.Sleet.Tx.{TxHash, Tx, hash}
use zfx_subzero.Sleet.State.{Env, Sleet, known}
use zfx_subzero.Sleet.Acceptance.{stored}
use zfx_subzero.Sleet.Receiving.{
  all_accepted, has_coinbase_output, has_parents, remove_accepted_parents, insert, is_fresh, enter,
  receive_new, on_receive_tx,
}
use zfx_subzero.Graph.{chit_replace}
use zfx_subzero.Graph.Dag.{open_entry, insert_edges, set_chit}
use zfx_subzero.Graph.Dag.Entries.{HasAll, edit-ok, push, contains_key-open_entry}
use zfx_subzero.Graph.Dag.Invariant.Insertion.{CanInsert}

contains-missing :
    (d : Dag TxHash) (vs : List TxHash) (v : TxHash)
    → contains (missing d vs) v ≡ (contains vs v && not (contains_key v d.g))
unfolding missing contains
contains-missing d [] v = refl
contains-missing d (x ∷ vs) v = ground (arith, eqb_iff x v, contains-missing d vs v)

module _ {env : Env} where
  all_accepted-contains :
      (s : Sleet env) (ps : List TxHash) (p : TxHash)
      → all_accepted s ps ≡ true
      → contains ps p ≡ true
      → stored s p ≡ true
  unfolding all_accepted contains
  all_accepted-contains s [] p h k = absurd (cc k)
  all_accepted-contains s (q ∷ ps) p h k = elim (Bool-cases (eqb q p)) [
    | inl same ↦ subst (λ x. stored s x ≡ true) ((eqb_iff q p).0 same) (ground arith)
    | inr other ↦ all_accepted-contains s ps p (ground arith) (ground arith)
  ]

  missing_accepted :
      (s : Sleet env) (tx : Tx)
      → has_parents s tx ≡ true
      → all_accepted s (missing s.dag tx.parents) ≡ true
  unfolding has_parents has_vertices all_accepted
  missing_accepted s tx h =
      elim (missing s.dag tx.parents)
          as (λ m.
            ((elim (elim m as (λ x. Result (List TxHash) (Unit {0})) [
              | [] ↦ ok tt
              | v ∷ rest ↦ err (v ∷ rest)
            ])
                as (λ x. Bool) [
                  | ok _ ↦ true
                  | err missing_parents ↦ all_accepted s missing_parents
                  | panic ↦ false
                ])
              ≡ true)
            → all_accepted s m ≡ true) [ [] ↦ λ h. refl | v ∷ rest ↦ λ h. h ]
        h

  -- The parents that stay are in the graph.
  remaining-HasAll :
      (s : Sleet env) (tx : Tx)
      → IsWellFormed s.dag
      → has_parents s tx ≡ true
      → HasAll (remove_accepted_parents s tx.parents) (open_entry (hash env.crypto tx) s.dag.inv)
  unfolding remove_accepted_parents
  remaining-HasAll s tx w h p k = ground (
    arith,
    contains-retain (λ p. not (stored s p)) tx.parents p,
    contains-missing s.dag tx.parents p,
    all_accepted-contains s (missing s.dag tx.parents) p (missing_accepted s tx h),
    contains_key-open_entry (hash env.crypto tx) s.dag.inv p,
    w.same_keys p,
  )

  module _ (tx : Tx) (s : Sleet env) (w : IsWellFormed s.dag)
      (plain : has_coinbase_output tx.cell ≡ false)
      (fresh : is_fresh s (hash env.crypto tx) ≡ ok true) (parents : has_parents s tx ≡ true)
      (celled : (insert_cell env.crypto tx.cell s.conflict_graph).1 ≡ ok tt)
      (vacant : contains_key (hash env.crypto tx) s.dag.g ≡ false) where
    entering : on_receive_tx tx s ≡ enter tx s
    unfolding on_receive_tx receive_new
    entering = rw (plain, fresh) (rw parents refl)

    -- If the graph is well-formed, then a transaction that makes no coinbase output, is not known or
    -- was removed, has its parents, is not in the graph and has no chit of 1, and whose cell the
    -- conflict graph takes, enters.
    pub on_receive_tx-enters :
        HashMap.get (hash env.crypto tx) s.dag.chits ≢ some 1 → (on_receive_tx tx s).1 ≡ ok true
    unfolding enter insert insert_vx remove_accepted_parents
    on_receive_tx-enters no_vote =
        let can : CanInsert (hash env.crypto tx) (remove_accepted_parents s tx.parents) s.dag =
          record {
            parents = remaining-HasAll s tx w parents;
            vacant = vacant;
            no_vote = no_vote;
          } in
        let v =
          (insert_vx-ok_iff (hash env.crypto tx) (remove_accepted_parents s tx.parents) s.dag).1
            can in
        rw entering (rw celled (rw v refl))

    insert_vx-stale :
        HashMap.get (hash env.crypto tx) s.dag.chits ≡ some 1
        → let (d, r) =
            insert_vx (hash env.crypto tx) (remove_accepted_parents s tx.parents) s.dag in
          (r ≡ err chit_replace) × (contains_key (hash env.crypto tx) d.g ≡ true)
    unfolding insert_vx insert_edges set_chit
    insert_vx-stale voted =
        rw
          (edit-ok (push (hash env.crypto tx)) (remove_accepted_parents s tx.parents)
            (open_entry (hash env.crypto tx) s.dag.inv) (remaining-HasAll s tx w parents))
          (rw (vacant, voted)
            (
              refl,
              ground (
                arith,
                HashMap.get-insert (hash env.crypto tx) (remove_accepted_parents s tx.parents)
                    s.dag.g (hash env.crypto tx),
                eqb_iff (hash env.crypto tx) (hash env.crypto tx),
              ),
            ))

    -- If the graph is well-formed, then a transaction that makes no coinbase output, is not known or
    -- was removed, has its parents, is not in the graph but has a chit of 1, and whose cell the
    -- conflict graph takes, is refused with `ChitReplace`; storage does not change, but the vertex is
    -- left in the graph and the cell in the conflict graph.
    pub on_receive_tx-stale :
        HashMap.get (hash env.crypto tx) s.dag.chits ≡ some 1
        → let (s', r) = on_receive_tx tx s in
          (r ≡ err (graph chit_replace))
          × ((u : TxHash) → known s' u ≡ known s u)
          × (contains_key (hash env.crypto tx) s'.dag.g ≡ true)
          × (s'.conflict_graph ≡ (insert_cell env.crypto tx.cell s.conflict_graph).0)
    unfolding enter insert insert_vx HashMap.get insert_cell remove_accepted_parents
    on_receive_tx-stale voted =
        let (refused, left) = insert_vx-stale voted in
        rw entering (rw celled (rw refused (refl, λ u. refl, left, refl)))
