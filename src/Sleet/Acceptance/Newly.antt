-- ===== src/Sleet/Acceptance/Newly.antt =====
-- src/sleet/sleet.rs: the loop of `compute_accepted_txs`.
use zfx_subzero.Prelude.{
  ◌≡◌, refl, sym, subst, ◌∙◌, ap, [], ◌∷◌, ◌++◌, List, eqb, eqb_iff, ◌≤◌, Bool-cases, inl, inr,
  Bool, true, false, ◌&&◌, ◌||◌, some, Result, ok, unwrap_or, nat_eq, arith,
}
use zfx_subzero.Prelude.HashSet.{contains, IsDistinct}
use zfx_subzero.Prelude.HashMap.{HashMap, contains_key}
use zfx_subzero.Prelude.Action.{◌>>◌}
use zfx_subzero.Graph.Dag.Invariant.{IsWellFormed}
use zfx_subzero.Sleet.{Error}
use zfx_subzero.Sleet.Tx.{TxHash, Tx}
use zfx_subzero.Sleet.Bounded.{insert_elem}
use zfx_subzero.Sleet.Bounded.Recent.{IsQueue}
use zfx_subzero.Sleet.Finality
use zfx_subzero.Sleet.Finality.{is_accepted_tx, is_accepted_tx-local, is_accepted_tx-stored}
use zfx_subzero.Sleet.State.{Env, Sleet, known, on_accepted_txs}
use zfx_subzero.Sleet.Ancestors.{is_accepted, is_accepted_memo-agrees, IsSound}
use zfx_subzero.Sleet.Acceptance.{stored, newly, mark, is_newly_accepted, compute_loop}
use zfx_subzero.Sleet.Acceptance.Marking.{
  Marks, mark-Marks, marks_stored, marks-is_accepted, marks-newly,
}
use mathlib.Core.List.{append-nil, append_assoc}

unwrap_or-true : (r : Result Error Bool) → unwrap_or false r ≡ true → r ≡ ok true
unwrap_or-true r h = ground arith

module _ {env : Env} where
  -- What the loop over `ts` from the state `s` shall end with.
  pub record Accepts (s : Sleet env) (ts new : List TxHash)
      (out : Sleet env × Result Error (List TxHash)) : Type 0 where
    pub found : List TxHash
    pub ends : out.1 ≡ ok (new ++ found)
    pub distinct : IsDistinct found
    pub exact : (u : TxHash) → contains found u ≡ (contains ts u && newly s u)
    pub same_dag : out.0.dag ≡ s.dag
    pub same_graph : out.0.conflict_graph ≡ s.conflict_graph
    pub stores : (u : TxHash) → stored out.0 u ≡ (stored s u || contains found u)

  -- What the loop needs: each transaction is in the graph and in storage, and has an answer.
  pub record IsReady (s : Sleet env) (ts : List TxHash) : Type 0 where
    pub well_formed : IsWellFormed s.dag
    pub present : (u : TxHash) → contains ts u ≡ true → contains_key u s.dag.g ≡ true
    pub in_storage : (u : TxHash) → contains ts u ≡ true → (tx : Tx) × (known s u ≡ some tx)
    pub answers : (u : TxHash) → contains ts u ≡ true → (b : Bool) × (is_accepted s u ≡ ok b)
    pub queue : IsQueue s.accepted_txs
    pub room : 2 ≤ s.accepted_txs.size

  IsReady-rest : (s : Sleet env) (t : TxHash) (ts : List TxHash) → IsReady s (t ∷ ts) → IsReady s ts
  unfolding contains
  IsReady-rest s t ts r = record {
    well_formed = r.well_formed;
    present = λ u k. r.present u (ground arith);
    in_storage = λ u k. r.in_storage u (ground arith);
    answers = λ u k. r.answers u (ground arith);
    queue = r.queue;
    room = r.room;
  }

  is_newly_accepted-answers :
      (s : Sleet env) (t : TxHash) (memo : HashMap TxHash Bool) {b : Bool}
      → IsSound s memo
      → is_accepted s t ≡ ok b
      → let (memo', r) = is_newly_accepted s t memo in (r ≡ ok (newly s t)) × IsSound s memo'
  unfolding is_newly_accepted
  is_newly_accepted-answers s t memo m h = elim (Bool-cases (stored s t)) [
    | inl old ↦ rw old (refl, m)
    | inr fresh ↦
        let (agrees, m') = is_accepted_memo-agrees s t memo m in rw (fresh, h) (agrees ∙ h, m')
  ]

  module _ (s : Sleet env) (t : TxHash) (ts : List TxHash) (memo : HashMap TxHash Bool)
      (new : List TxHash) where
    loop_skip :
        (is_newly_accepted s t memo).1 ≡ ok false
        → compute_loop (t ∷ ts) memo new s ≡ compute_loop ts (is_newly_accepted s t memo).0 new s
    unfolding compute_loop
    loop_skip h = rw h refl

    loop_mark :
        (is_newly_accepted s t memo).1 ≡ ok true
        → ((on_accepted_txs (insert_elem t) >> mark t) s).1 ≡ ok tt
        → compute_loop (t ∷ ts) memo new s
          ≡ compute_loop ts
              (is_newly_accepted s t memo).0
              (new ++ t ∷ [])
              ((on_accepted_txs (insert_elem t) >> mark t) s).0
    unfolding compute_loop
    loop_mark h k = rw h (rw k refl)

  pub newly-is_accepted :
      (s : Sleet env) (t : TxHash) → newly s t ≡ true → is_accepted s t ≡ ok true
  newly-is_accepted s t h = unwrap_or-true (is_accepted s t) (ground arith)

  -- A step over a transaction that is not newly accepted.
  skip-Accepts :
      (s : Sleet env) (t : TxHash) (ts new : List TxHash)
      {out : Sleet env × Result Error (List TxHash)}
      → newly s t ≡ false
      → Accepts s ts new out
      → Accepts s (t ∷ ts) new out
  unfolding contains
  skip-Accepts s t ts new h a = record {
    found = a.found;
    ends = a.ends;
    distinct = a.distinct;
    exact = λ u. a.exact u ∙ elim (Bool-cases (eqb t u)) [
      | inl same ↦
          subst (λ x. (contains ts x && newly s x) ≡ (eqb t x || contains ts x) && newly s x)
            ((eqb_iff t u).0 same) (rw h (ground arith))
      | inr other ↦ rw other refl
    ];
    same_dag = a.same_dag;
    same_graph = a.same_graph;
    stores = a.stores;
  }

  -- A step over one that is.
  mark-Accepts :
      (s : Sleet env) (t : TxHash) (ts new : List TxHash) (s1 : Sleet env)
      {out : Sleet env × Result Error (List TxHash)}
      → contains ts t ≡ false
      → newly s t ≡ true
      → is_accepted s t ≡ ok true
      → IsReady s (t ∷ ts)
      → Marks s t s1
      → Accepts s1 ts (new ++ t ∷ []) out
      → Accepts s (t ∷ ts) new out
  unfolding contains
  mark-Accepts s t ts new s1 absent h sure r m a = record {
    found = t ∷ a.found;
    ends = a.ends ∙ ap ok (append_assoc new (t ∷ []) a.found);
    distinct = (a.exact t ∙ rw absent refl, a.distinct);
    exact = λ u. elim (Bool-cases (eqb t u)) [
      | inl same ↦ rw same (sym (subst (λ x. newly s x ≡ true) ((eqb_iff t u).0 same) h))
      | inr other ↦ rw other (a.exact u ∙ ap (λ b. contains ts u && b) (news u other))
    ];
    same_dag = a.same_dag ∙ m.same_dag;
    same_graph = a.same_graph ∙ m.same_graph;
    stores = λ u. a.stores u ∙ elim (Bool-cases (eqb t u)) [
      | inl same ↦
          rw
            (
              same,
              subst (λ x. stored s1 x ≡ true) ((eqb_iff t u).0 same)
                  (marks_stored s t s1 m sure r.well_formed key),
            )
            (ground arith)
      | inr other ↦ rw other (
          ap (λ b. b || contains a.found u)
            (Finality.is_accepted-local (known s) (known s1) u (m.others u other)))
    ];
  }
    where
      key : contains_key t s.dag.g ≡ true
      key = r.present t (ground (arith, eqb_iff t t))

      news : (u : TxHash) → eqb t u ≡ false → newly s1 u ≡ newly s u
      news = marks-newly s t s1 m sure r.well_formed key

  IsReady-marked :
      (s : Sleet env) (t : TxHash) (ts : List TxHash) (s1 : Sleet env)
      → contains ts t ≡ false
      → is_accepted s t ≡ ok true
      → IsReady s (t ∷ ts)
      → Marks s t s1
      → IsReady s1 ts
  unfolding contains
  IsReady-marked s t ts s1 absent sure r m = record {
    well_formed = rw m.same_dag r.well_formed;
    present = λ u k. rw m.same_dag (r.present u (ground arith));
    in_storage = λ u k. elim (Bool-cases (eqb t u)) [
      | inl same ↦
          absurd (cc (absent, subst (λ x. contains ts x ≡ true) (sym ((eqb_iff t u).0 same)) k))
      | inr other ↦ rw (m.others u other) (r.in_storage u (ground arith))
    ];
    answers = λ u k.
        let key = r.present t (ground (arith, eqb_iff t t)) in
        rw (marks-is_accepted s t s1 m sure r.well_formed key u) (r.answers u (ground arith));
    queue = m.queue;
    room = m.room;
  }

  pub compute_loop-Accepts :
      (ts : List TxHash) (memo : HashMap TxHash Bool) (new : List TxHash) (s : Sleet env)
      → IsDistinct ts
      → IsSound s memo
      → IsReady s ts
      → Accepts s ts new (compute_loop ts memo new s)
  compute_loop-Accepts [] memo new s d m r =
      unfold compute_loop contains in
      record {
        found = [];
        ends = rw (append-nil new) refl;
        distinct = tt;
        exact = λ u. refl;
        same_dag = refl;
        same_graph = refl;
        stores = λ u. ground arith;
      }
  compute_loop-Accepts (t ∷ ts) memo new s d m r =
      let at_head : contains (t ∷ ts) t ≡ true = unfold contains in ground (arith, eqb_iff t t) in
      let (b, answer) = r.answers t at_head in
      let (tx, found) = r.in_storage t at_head in
      let (tested, m') = is_newly_accepted-answers s t memo m answer in
      let (marked, marks) = mark-Marks s t found r.queue r.room in
      elim (Bool-cases (newly s t)) [
        | inl new_one ↦
            let sure : is_accepted s t ≡ ok true = newly-is_accepted s t new_one in
            rw (loop_mark s t ts memo new (tested ∙ ap ok new_one) marked) (
              mark-Accepts s t ts new _ d.0 new_one sure r marks (
                compute_loop-Accepts ts _ (new ++ t ∷ []) _ d.1
                  (λ k c g.
                    marks-is_accepted s t _ marks sure r.well_formed (r.present t at_head) k
                    ∙ m' k c g)
                  (IsReady-marked s t ts _ d.0 sure r marks)))
        | inr old ↦ rw (loop_skip s t ts memo new (tested ∙ ap ok old)) (
            skip-Accepts s t ts new old
              (compute_loop-Accepts ts _ new s d.1 m' (IsReady-rest s t ts r)))
      ]
