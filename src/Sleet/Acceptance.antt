-- ===== src/Sleet/Acceptance.antt =====
-- src/sleet/sleet.rs: `compute_accepted_txs`, which marks what a vote made final.
pub mod Marking
pub mod Newly
pub mod Exact
use zfx_subzero.Prelude.{
  ◌≡◌, refl, sym, subst, ◌∙◌, ◌↔◌, [], ◌∷◌, ◌++◌, List, eqb, eqb_iff, ◌≤◌, Bool-cases, Option-cases,
  inl, inr, if◌then◌else◌, Bool, true, false, not, ◌&&◌, ◌||◌, Option, none, some, Result, ok, err,
  panic, or_panic, unwrap_or, nat_eq, arith,
}
use zfx_subzero.Prelude.HashSet.{contains, IsDistinct, contains-append}
use zfx_subzero.Prelude.HashMap
use zfx_subzero.Prelude.HashMap.{HashMap, contains_key}
use zfx_subzero.Prelude.Action.{Action, pure, and_then, ◌>>=◌, ◌>>◌}
use zfx_subzero.Prelude.Checks.{all_ok}
use zfx_subzero.Graph.Dag.{Dag}
use zfx_subzero.Graph.Dag.Invariant.{IsWellFormed}
use zfx_subzero.Graph.Dag.Search.{dfs}
use zfx_subzero.Graph.Dag.Search.Walk.{Reach, here}
use zfx_subzero.Graph.Dag.Search.DepthFirst.{dfs-exact}
use zfx_subzero.Storage.Txs.{KnownTxs, set_status, set_status-ok, read-set_status}
use zfx_subzero.Storage.Txs
use zfx_subzero.Sleet.{Error}
use zfx_subzero.Sleet.Tx.{TxHash, Tx, accepted}
use zfx_subzero.Sleet.Bounded.{insert_elem}
use zfx_subzero.Sleet.Bounded.Recent.{IsQueue, insert_elem-refines}
use zfx_subzero.Sleet.Finality
use zfx_subzero.Sleet.Finality.{is_accepted_tx, is_accepted_tx-local, is_accepted_tx-stored}
use zfx_subzero.Sleet.State.{Env, Sleet, known, on_accepted_txs}
use zfx_subzero.Sleet.Ancestors.{
  is_accepted, is_accepted_memo, is_accepted_memo-agrees, IsSound, []-IsSound, is_accepted-ext,
  is_accepted_iff,
}

module _ {env : Env} where
  -- The test of the loop.
  unfoldable pub is_newly_accepted : Sleet env → TxHash → Action (HashMap TxHash Bool) Error Bool
  is_newly_accepted s t memo =
      if Finality.is_accepted (known s) t then (memo, ok false) else is_accepted_memo s t memo

  -- `set_status(..).unwrap()`
  unfoldable pub mark : TxHash → Action (Sleet env) Error (Unit {0})
  mark t s =
      let (db, r) = set_status env.sled t accepted s.known_txs in
      (record s { known_txs = db }, or_panic r)

  unfoldable pub compute_loop :
      List TxHash → HashMap TxHash Bool → List TxHash → Action (Sleet env) Error (List TxHash)
  compute_loop [] memo new = pure new
  compute_loop (t ∷ ts) memo new = λ s.
      let (memo', r) = is_newly_accepted s t memo in
      and_then r
        (λ accepts.
          if accepts
          then on_accepted_txs (insert_elem t) >> mark t >> compute_loop ts memo' (new ++ t ∷ [])
          else compute_loop ts memo' new)
        s

  unfoldable pub compute_accepted_txs : TxHash → Action (Sleet env) Error (List TxHash)
  compute_accepted_txs tx_hash s = compute_loop (dfs s.dag tx_hash) [] [] s

  -- Accepted in storage.
  abbrev pub stored : Sleet env → TxHash → Bool
  stored s t = Finality.is_accepted (known s) t

  -- Accepted now, and not before.
  abbrev pub newly : Sleet env → TxHash → Bool
  newly s t = not (stored s t) && unwrap_or false (is_accepted s t)
