-- ===== src/Sleet/Acceptance/Marking.antt =====
-- src/sleet/sleet.rs: what marking an accepted transaction as accepted changes.
use zfx_subzero.Prelude.{
  ◌≡◌, refl, sym, subst, ◌∙◌, eqb, eqb_iff, ◌≤◌, Bool-cases, inl, inr, true, false, some, ok,
  nat_eq, arith,
}
use zfx_subzero.Prelude.HashMap.{contains_key}
use zfx_subzero.Prelude.Action.{◌>>◌}
use zfx_subzero.Graph.Dag.Invariant.{IsWellFormed}
use zfx_subzero.Graph.Dag.Search.Walk.{here}
use zfx_subzero.Storage.Txs.{set_status-ok, read-set_status}
use zfx_subzero.Sleet.{Error}
use zfx_subzero.Sleet.Tx.{TxHash, Tx, accepted}
use zfx_subzero.Sleet.Bounded.{insert_elem}
use zfx_subzero.Sleet.Bounded.Recent.{IsQueue, insert_elem-refines}
use zfx_subzero.Sleet.Finality
use zfx_subzero.Sleet.Finality.{is_accepted_tx, is_accepted_tx-local, is_accepted_tx-stored}
use zfx_subzero.Sleet.State.{Env, Sleet, known, on_accepted_txs}
use zfx_subzero.Sleet.Ancestors.{is_accepted, is_accepted-ext, is_accepted_iff}
use zfx_subzero.Sleet.Acceptance.{newly, mark}

module _ {env : Env} where
  -- A step of the loop that marks `t`.
  pub record Marks (s : Sleet env) (t : TxHash) (s1 : Sleet env) : Type 0 where
    pub same_dag : s1.dag ≡ s.dag
    pub same_graph : s1.conflict_graph ≡ s.conflict_graph
    pub marked : (tx : Tx) × (known s1 t ≡ some (record tx { status = accepted }))
    pub others : (u : TxHash) → eqb t u ≡ false → known s1 u ≡ known s u
    pub queue : IsQueue s1.accepted_txs
    pub room : 2 ≤ s1.accepted_txs.size

  pub mark-Marks :
      (s : Sleet env) (t : TxHash) {tx : Tx}
      → known s t ≡ some tx
      → IsQueue s.accepted_txs
      → 2 ≤ s.accepted_txs.size
      → let (s1, r) = (on_accepted_txs (insert_elem t) >> mark t) s in (r ≡ ok tt) × Marks s t s1
  unfolding mark
  mark-Marks s t {tx} found q room =
      let (ends, q', size, _) = insert_elem-refines {E = Error} t s.accepted_txs room q in
      rw (ends, set_status-ok env.sled t accepted s.known_txs found)
        (
          refl,
          record {
            same_dag = refl;
            same_graph = refl;
            marked = (
              tx,
              ground (arith, found, read-set_status env.sled t accepted s.known_txs t, eqb_iff t t),
            );
            others = λ u o. ground (arith, read-set_status env.sled t accepted s.known_txs u, o);
            queue = q';
            room = rw size room;
          },
        )

  module _ (s : Sleet env) (t : TxHash) (s1 : Sleet env) (m : Marks s t s1)
      (sure : is_accepted s t ≡ ok true) (w : IsWellFormed s.dag)
      (key : contains_key t s.dag.g ≡ true) where
    pub marks_stored : Finality.is_accepted (known s1) t ≡ true
    marks_stored = Finality.is_accepted-marked (known s1) t m.marked.0 m.marked.1

    -- Marking an accepted transaction changes no answer.
    pub marks-is_accepted : (u : TxHash) → is_accepted s1 u ≡ is_accepted s u
    marks-is_accepted = is_accepted-ext s s1 m.same_dag (λ u. elim (Bool-cases (eqb t u)) [
      | inl same ↦
          subst
            (λ x.
              is_accepted_tx (known s1) s1.conflict_graph x
              ≡ is_accepted_tx (known s) s.conflict_graph x)
            ((eqb_iff t u).0 same)
            (is_accepted_tx-stored (known s1) s1.conflict_graph t marks_stored
              ∙ sym ((is_accepted_iff s t w key).0.0 sure t here))
      | inr other ↦
          rw m.same_graph
            (is_accepted_tx-local (known s) (known s1) s.conflict_graph u (m.others u other))
    ])

    pub marks-newly : (u : TxHash) → eqb t u ≡ false → newly s1 u ≡ newly s u
    marks-newly u o =
        rw (marks-is_accepted u, Finality.is_accepted-local (known s) (known s1) u (m.others u o))
          refl
