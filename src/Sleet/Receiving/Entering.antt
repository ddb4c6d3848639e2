-- ===== src/Sleet/Receiving/Entering.antt =====
-- src/sleet/sleet.rs: what `on_receive_tx` does to a transaction that enters.
use zfx_subzero.Prelude.{
  ◌≡◌, refl, sym, ap, ◌∙◌, eqb, if◌then◌else◌, true, false, not, ◌&&◌, ◌||◌, some, ok, err, nat_eq,
  arith,
}
use zfx_subzero.Prelude.HashSet.{contains, contains-retain}
use zfx_subzero.Prelude.HashMap
use zfx_subzero.Prelude.HashMap.{contains_key}
use zfx_subzero.Prelude.Action.{pure, gets, ◌>>=◌, >>=-eq-ok}
use zfx_subzero.Graph.Dag.{Dag, insert_vx, adjacent}
use zfx_subzero.Graph.Dag.Invariant.{IsWellFormed}
use zfx_subzero.Graph.Dag.Invariant.Insertion.{insert_vx-IsWellFormed}
use zfx_subzero.Graph.ConflictGraph.{ConflictGraph, insert_cell}
use zfx_subzero.Storage.Txs.{insert_tx}
use zfx_subzero.Sleet.{graph, invalid_coinbase_transaction, missing_ancestry}
use zfx_subzero.Sleet.Tx.{TxHash, Tx, pending, hash}
use zfx_subzero.Sleet.State.{Env, Sleet, known, on_conflict_graph, on_dag}
use zfx_subzero.Sleet.Acceptance.{stored}
use zfx_subzero.Sleet.Ancestors.{map_err-ok}
use zfx_subzero.Sleet.Receiving.{
  has_coinbase_output, has_parents, remove_accepted_parents, insert, store, is_fresh, enter,
  receive_new, on_receive_tx,
}

module _ {env : Env} where
  -- The state with the transaction in both graphs.
  abbrev linked : Tx → Sleet env → Sleet env
  linked tx s = record s {
    conflict_graph = (insert_cell env.crypto tx.cell s.conflict_graph).0;
    dag = (insert_vx (hash env.crypto tx) (remove_accepted_parents s tx.parents) s.dag).0;
  }

  -- The state with another storage, conflict graph and graph.
  abbrev pub with_parts : Sleet env → env.sled.Db → ConflictGraph → Dag TxHash → Sleet env
  with_parts s db conflicts dag = record s { known_txs = db; conflict_graph = conflicts; dag = dag }

  insert-linked :
      (tx : Tx) (s : Sleet env)
      → (insert tx s).1 ≡ ok tt
      → ((insert_cell env.crypto tx.cell s.conflict_graph).1 ≡ ok tt)
        × ((insert_vx (hash env.crypto tx) (remove_accepted_parents s tx.parents) s.dag).1 ≡ ok tt)
        × (insert tx s ≡ (linked tx s, ok tt))
  unfolding insert remove_accepted_parents
  insert-linked tx s h =
      let (_, cell_ok, h') =
        >>=-eq-ok (on_conflict_graph (insert_cell env.crypto tx.cell))
          (λ _. gets (λ s. remove_accepted_parents s tx.parents) >>= λ parents.
            on_dag (insert_vx (hash env.crypto tx) parents))
          s h in
      let c = map_err-ok graph _ cell_ok in
      let v =
        map_err-ok graph
          (insert_vx (hash env.crypto tx) (remove_accepted_parents s tx.parents) s.dag).1 h' in
      (c, v, rw c (rw v refl))

  on_receive_tx-enter :
      (tx : Tx) (s : Sleet env)
      → (on_receive_tx tx s).1 ≡ ok true
      → (has_coinbase_output tx.cell ≡ false)
        × (is_fresh s (hash env.crypto tx) ≡ ok true)
        × (has_parents s tx ≡ true)
        × (on_receive_tx tx s ≡ enter tx s)
  unfolding on_receive_tx receive_new
  on_receive_tx-enter tx s h = ground (arith, h)

  enter-linked :
      (tx : Tx) (s : Sleet env)
      → (enter tx s).1 ≡ ok true
      → let tx' = record tx { status = pending } in
        ((insert_cell env.crypto tx.cell s.conflict_graph).1 ≡ ok tt)
        × ((insert_vx (hash env.crypto tx) (remove_accepted_parents s tx.parents) s.dag).1 ≡ ok tt)
        × ((enter tx s).0
            ≡ record (linked tx s) { known_txs = insert_tx env.sled env.crypto tx' s.known_txs })
  unfolding enter
  enter-linked tx s h =
      let tx' = record tx { status = pending } in
      let (_, inserted, _) = >>=-eq-ok (insert tx') (λ _. store tx' >>= λ _. pure true) s h in
      let (c, v, e) = insert-linked tx' s inserted in (c, v, rw e refl)

  -- A new transaction that `on_receive_tx` takes in makes no coinbase output and has its parents; it
  -- is pending in storage, where all else stays; the conflict graph is that of a successful
  -- `insert_cell`; the graph stays well-formed and gets it as its one new vertex, whose edges are its
  -- parents that were not accepted and whose chit is 0; all other edges and chits stay, and so does
  -- the state besides storage, the conflict graph and the graph. The graph is well-formed before.
  pub on_receive_tx-ok_true :
      (tx : Tx) (s : Sleet env)
      → IsWellFormed s.dag
      → (on_receive_tx tx s).1 ≡ ok true
      → let s' = (on_receive_tx tx s).0 in
        let h = hash env.crypto tx in
        (has_coinbase_output tx.cell ≡ false)
        × (has_parents s tx ≡ true)
        × ((u : TxHash)
            → known s' u ≡ (if eqb h u then some (record tx { status = pending }) else known s u))
        × (insert_cell env.crypto tx.cell s.conflict_graph ≡ (s'.conflict_graph, ok tt))
        × IsWellFormed s'.dag
        × ((u : TxHash) → contains_key u s'.dag.g ≡ (eqb h u || contains_key u s.dag.g))
        × ((u v : TxHash)
            → contains (adjacent s'.dag.g u) v ≡ (
                if eqb h u
                then contains tx.parents v && not (stored s v)
                else contains (adjacent s.dag.g u) v))
        × ((u : TxHash)
            → HashMap.get u s'.dag.chits ≡ (if eqb h u then some 0 else HashMap.get u s.dag.chits))
        × (s' ≡ with_parts s s'.known_txs s'.conflict_graph s'.dag)
  unfolding insert_tx remove_accepted_parents
  on_receive_tx-ok_true tx s w h =
      let (plain, _, parents, entered) = on_receive_tx-enter tx s h in
      let (c, v, e) = enter-linked tx s (sym (ap (λ p. p.1) entered) ∙ h) in
      let (w', keys, edges, chits) =
        insert_vx-IsWellFormed (hash env.crypto tx) (remove_accepted_parents s tx.parents) s.dag w
          v in
      rw (entered, e)
        (
          plain,
          parents,
          λ u.
              env.sled.read-write (hash env.crypto tx) (record tx { status = pending }) s.known_txs
                u,
          λ i. ((insert_cell env.crypto tx.cell s.conflict_graph).0, c i),
          w',
          keys,
          λ x y. edges x y ∙ rw (contains-retain (λ p. not (stored s p)) tx.parents y) refl,
          chits,
          refl,
        )

  -- Whatever `on_receive_tx` turns down before it writes leaves the state as it was: a coinbase, a
  -- transaction without its parents, and one that is known and was not removed.
  pub on_receive_tx-unchanged :
      (tx : Tx) (s : Sleet env)
      → ((has_coinbase_output tx.cell ≡ true)
          → on_receive_tx tx s ≡ (s, err (invalid_coinbase_transaction tx.cell)))
        × (has_coinbase_output tx.cell ≡ false
            → is_fresh s (hash env.crypto tx) ≡ ok false
            → on_receive_tx tx s ≡ (s, ok false))
        × (has_coinbase_output tx.cell ≡ false
            → is_fresh s (hash env.crypto tx) ≡ ok true
            → has_parents s tx ≡ false
            → on_receive_tx tx s ≡ (s, err missing_ancestry))
  unfolding on_receive_tx receive_new
  on_receive_tx-unchanged tx s =
      (λ c. rw c refl, λ c k. rw (c, k) refl, λ c k p. rw (c, k) (rw p refl))
