-- ===== src/Sleet/Ancestors.antt =====
-- src/sleet/sleet.rs: the tests of a transaction and its ancestors: `is_strongly_preferred`,
-- `is_accepted` and its memoising version.
use zfx_subzero.Prelude.{
  ◌≡◌, refl, sym, subst, ◌∙◌, ◌↔◌, [], eqb, eqb_iff, Bool-cases, Option-cases, inl, inr, Bool, true,
  false, none, some, Result, ok, err, panic, map_err, nat_eq, arith,
}
use zfx_subzero.Prelude.HashMap
use zfx_subzero.Prelude.HashMap.{HashMap, contains_key}
use zfx_subzero.Prelude.Action.{Action, pure, ◌>>=◌, modify, ◌>>◌, lift}
use zfx_subzero.Prelude.Checks.{all_ok}
use zfx_subzero.Graph.Dag.Invariant.{IsWellFormed}
use zfx_subzero.Graph.Dag.Search.{dfs}
use zfx_subzero.Graph.Dag.Search.Walk.{Reach}
use zfx_subzero.Graph.Dag.Search.Ancestry.{all_ok-dfs-true, all_ok-dfs-false, all_ok-dfs-ends}
use zfx_subzero.Graph.ConflictGraph.Votes.{is_preferred}
use zfx_subzero.Sleet.{Error, graph}
use zfx_subzero.Sleet.Tx.{TxHash}
use zfx_subzero.Sleet.Finality.{is_accepted_tx}
use zfx_subzero.Sleet.State.{Env, Sleet, known}

pub map_err-ok :
    {E F A : Type 0} (f : E → F) (r : Result E A) {a : A} → map_err f r ≡ ok a → r ≡ ok a
map_err-ok f r h = ground arith

-- An answer goes into the memo.
abbrev remember : TxHash → Result Error Bool → Action (HashMap TxHash Bool) Error Bool
remember tx_hash answer = do res ← lift answer; modify (HashMap.insert tx_hash res); pure res

module _ {env : Env} where
  unfoldable pub is_strongly_preferred : Sleet env → TxHash → Result Error Bool
  is_strongly_preferred s tx =
      all_ok (λ ancestor. map_err graph (is_preferred s.conflict_graph ancestor)) (dfs s.dag tx)

  unfoldable pub is_accepted : Sleet env → TxHash → Result Error Bool
  is_accepted s initial_tx_hash =
      all_ok (is_accepted_tx (known s) s.conflict_graph) (dfs s.dag initial_tx_hash)

  unfoldable pub is_accepted_memo : Sleet env → TxHash → Action (HashMap TxHash Bool) Error Bool
  is_accepted_memo s tx_hash memo = elim (HashMap.get tx_hash memo) [
    | some res ↦ (memo, ok res)
    | none ↦ remember tx_hash (is_accepted s tx_hash) memo
  ]

  -- A transaction of a well-formed graph is strongly preferred exactly if each transaction that can
  -- be reached from it is preferred in its conflict set; if the answer is no, one of them is not.
  pub is_strongly_preferred_iff :
      (s : Sleet env) (tx : TxHash)
      → IsWellFormed s.dag
      → contains_key tx s.dag.g ≡ true
      → ((is_strongly_preferred s tx ≡ ok true)
          ↔ ((u : TxHash) → Reach s.dag.g tx u → is_preferred s.conflict_graph u ≡ ok true))
        × (is_strongly_preferred s tx ≡ ok false
            → (u : TxHash) × Reach s.dag.g tx u × (is_preferred s.conflict_graph u ≡ ok false))
  unfolding is_strongly_preferred
  is_strongly_preferred_iff s tx w h =
      let preferred = λ (u : TxHash). map_err graph (is_preferred s.conflict_graph u) in
      let (to, from) = all_ok-dfs-true preferred s.dag tx w h in
      (
        (λ k u r. map_err-ok graph _ (to k u r), λ k. from (λ u r. rw (k u r) refl)),
        λ k.
            let (u, r, bad) = all_ok-dfs-false preferred s.dag tx w h k in
            (u, r, map_err-ok graph _ bad),
      )

  -- A transaction of a well-formed graph is accepted exactly if each transaction that can be reached
  -- from it is; if the answer is no, one of them is not, and if there is an answer for each, there is
  -- one for the transaction.
  pub is_accepted_iff :
      (s : Sleet env) (tx : TxHash)
      → IsWellFormed s.dag
      → contains_key tx s.dag.g ≡ true
      → let accepts = is_accepted_tx (known s) s.conflict_graph in
        ((is_accepted s tx ≡ ok true) ↔ ((u : TxHash) → Reach s.dag.g tx u → accepts u ≡ ok true))
        × (is_accepted s tx ≡ ok false → (u : TxHash) × Reach s.dag.g tx u × (accepts u ≡ ok false))
        × (((u : TxHash) → Reach s.dag.g tx u → (b : Bool) × (accepts u ≡ ok b))
            → (b : Bool) × (is_accepted s tx ≡ ok b))
  unfolding is_accepted
  is_accepted_iff s tx w h =
      let accepts = is_accepted_tx (known s) s.conflict_graph in
      (
        all_ok-dfs-true accepts s.dag tx w h,
        all_ok-dfs-false accepts s.dag tx w h,
        all_ok-dfs-ends accepts s.dag tx w h,
      )

  -- The memo holds answers of `is_accepted`.
  abbrev pub IsSound : Sleet env → HashMap TxHash Bool → Type 0
  IsSound s memo = (k : TxHash) (b : Bool) → HashMap.get k memo ≡ some b → is_accepted s k ≡ ok b

  pub []-IsSound : (s : Sleet env) → IsSound s []
  unfolding HashMap.get
  []-IsSound s k b h = absurd (cc h)

  insert-IsSound :
      (s : Sleet env) (tx : TxHash) (memo : HashMap TxHash Bool) (b : Bool)
      → IsSound s memo
      → is_accepted s tx ≡ ok b
      → IsSound s (HashMap.insert tx b memo)
  insert-IsSound s tx memo b m h k c found = elim (Bool-cases (eqb tx k)) [
    | inl same ↦
        subst (λ x. is_accepted s x ≡ ok c) ((eqb_iff tx k).0 same)
          (h ∙ ground (arith, HashMap.get-insert tx b memo k))
    | inr other ↦ m k c (rw (HashMap.get-insert tx b memo k, other) at found)
  ]

  remember-IsSound :
      (s : Sleet env) (tx : TxHash) (memo : HashMap TxHash Bool) (r : Result Error Bool)
      → IsSound s memo
      → is_accepted s tx ≡ r
      → ((remember tx r memo).1 ≡ r) × IsSound s (remember tx r memo).0
  remember-IsSound s tx memo (ok b) m h = (refl, insert-IsSound s tx memo b m h)
  remember-IsSound s tx memo (err e) m h = (refl, m)
  remember-IsSound s tx memo panic m h = (refl, m)

  -- Two states whose graphs are the same and that accept the same transactions by themselves.
  pub is_accepted-ext :
      (s s' : Sleet env)
      → s'.dag ≡ s.dag
      → ((u : TxHash)
          → is_accepted_tx (known s') s'.conflict_graph u
            ≡ is_accepted_tx (known s) s.conflict_graph u)
      → (u : TxHash) → is_accepted s' u ≡ is_accepted s u
  unfolding is_accepted
  is_accepted-ext s s' d h u = λ i. all_ok (λ x. h x i) (dfs (d i) u)

  -- With a memo of its answers, `is_accepted_memo` answers as `is_accepted` does, and the memo
  -- after it holds its answers again.
  pub is_accepted_memo-agrees :
      (s : Sleet env) (tx : TxHash) (memo : HashMap TxHash Bool)
      → IsSound s memo
      → ((is_accepted_memo s tx memo).1 ≡ is_accepted s tx)
        × IsSound s (is_accepted_memo s tx memo).0
  unfolding is_accepted_memo
  is_accepted_memo-agrees s tx memo m = elim (Option-cases (HashMap.get tx memo)) [
    | inl absent ↦ rw (absent, is_accepted_memo) (remember-IsSound s tx memo _ m refl)
    | inr (b, found) ↦ rw (found, is_accepted_memo) (sym (m tx b found), m)
  ]
