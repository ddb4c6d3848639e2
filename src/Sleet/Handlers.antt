-- ===== src/Sleet/Handlers.antt =====
-- src/sleet/sleet.rs: the handlers of the messages that change the state. A reply is the value of the
-- action; what is awaited from other nodes comes with the message.
use zfx_subzero.Prelude.{
  Bool, true, false, Option, none, some, List, [], ◌∷◌, ◌++◌, reverse, Result, ok, err, panic,
  or_panic, if◌then◌else◌, nat_eq,
}
use zfx_subzero.Prelude.HashMap
use zfx_subzero.Prelude.HashMap.{HashMap}
use zfx_subzero.Prelude.Action.{Action, pure, modify, gets, ◌>>=◌, ◌>>◌}
use zfx_subzero.Graph.Dag.{set_chit}
use zfx_subzero.Storage.Txs.{set_status, get_tx}
use zfx_subzero.Sleet.{Error, missing_ancestry}
use zfx_subzero.Sleet.Tx
use zfx_subzero.Sleet.Tx.{TxHash, Tx, queried, hash}
use zfx_subzero.Sleet.Bounded.{BoundedHashMap, insert_entry}
use zfx_subzero.Sleet.Finality.{is_accepted, cannot_be_accepted}
use zfx_subzero.Sleet.State.{
  Env, Sleet, Sender, Message, fresh_tx, check_pending, new_accepted, ask_for_ancestors,
  accepted_cells, outcome_of, Weights, known, send, on_dag, on_known_txs,
}
use zfx_subzero.Sleet.Ancestors.{is_strongly_preferred}
use zfx_subzero.Sleet.Acceptance.{compute_accepted_txs}
use zfx_subzero.Sleet.Receiving.{on_receive_tx, has_parents}
use zfx_subzero.Sleet.Frontier.{prune_at_accepted_frontier}
use zfx_subzero.Sleet.Parents.{select_parents, nparents}
use zfx_subzero.Sleet.Votes.{update_ancestral_preference, reset_ancestor_confidence}
use zfx_subzero.Sleet.Conflicts.{remove_conflicts}
use zfx_subzero.Ice.{PeerId}
use zfx_subzero.Cell.Types.{CellHash, Cell}

-- A response to a query.
pub data Ack : Type 0 where
  query_tx_ack : PeerId → Bool → Ack
  other_response : Ack

-- `sum_outcomes` of src/util.rs
unfoldable pub sum_outcomes : (w : Weights) → List (PeerId × w.Weight × Bool) → w.Weight → w.Weight
sum_outcomes w [] acc = acc
sum_outcomes w ((id, weight, result) ∷ rest) acc =
    sum_outcomes w rest (if result then w.add acc weight else acc)

-- The outcomes with the weights of the committee; another response is a panic.
unfoldable pub outcomes_of :
    (w : Weights)
    → HashMap PeerId w.Weight
    → List Ack
    → Result Error (List (PeerId × w.Weight × Bool))
outcomes_of w committee [] = ok []
outcomes_of w committee (other_response ∷ acks) = panic
outcomes_of w committee (query_tx_ack id outcome ∷ acks) = elim (outcomes_of w committee acks) [
  | ok rest ↦ elim (HashMap.get id committee) [
    | some weight ↦ ok ((id, weight, outcome) ∷ rest)
    | none ↦ ok rest
  ]
  | err e ↦ err e
  | panic ↦ panic
]

module _ {env : Env} where
  -- `m.unwrap()`
  abbrev unwrapped : {A : Type 0} → Action (Sleet env) Error A → Action (Sleet env) Error A
  unwrapped m s = let (s', r) = m s in (s', or_panic r)

  unfoldable pub query_incomplete : Tx → Action (Sleet env) Error (Unit {0})
  query_incomplete tx = do
    unwrapped (reset_ancestor_confidence (hash env.crypto tx))
    unwrapped (on_known_txs (set_status env.sled (hash env.crypto tx) queried))

  abbrev on_live_cells :
      Action (BoundedHashMap CellHash Cell) Error (Unit {0}) → Action (Sleet env) Error (Unit {0})
  on_live_cells act s = (record s { live_cells = (act s.live_cells).0 }, (act s.live_cells).1)

  abbrev notify_accepted : List TxHash → Sleet env → Sleet env
  notify_accepted [] s = s
  notify_accepted (t ∷ ts) s = send (new_accepted (t ∷ ts)) s

  -- What follows a query that got the weight.
  unfoldable pub vote : Tx → Action (Sleet env) Error (Unit {0})
  vote tx = do
    unwrapped (on_dag (set_chit (hash env.crypto tx) 1))
    unwrapped (update_ancestral_preference (hash env.crypto tx))
    on_live_cells (insert_entry (hash env.crypto tx) tx.cell)
    accepted ← compute_accepted_txs (hash env.crypto tx)
    modify (notify_accepted accepted)

  unfoldable pub query_complete : Tx → List Ack → Action (Sleet env) Error (Unit {0})
  query_complete tx acks = do
    outcomes ← (λ s. (s, outcomes_of env.weights s.committee acks))
    (if env.weights.gtb (sum_outcomes env.weights outcomes env.weights.zero_weight) env.weights.half
        then vote tx
        else unwrapped (reset_ancestor_confidence (hash env.crypto tx)))
    unwrapped (on_known_txs (set_status env.sled (hash env.crypto tx) queried))

  -- An error of `remove_conflicts` is logged.
  abbrev logged : Action (Sleet env) Error (Unit {0}) → Action (Sleet env) Error (Unit {0})
  logged m s = elim (m s).1 [
    | ok u ↦ ((m s).0, ok u)
    | err e ↦ ((m s).0, ok tt)
    | panic ↦ ((m s).0, panic)
  ]

  unfoldable pub settle_all : List TxHash → List Cell → Action (Sleet env) Error (List Cell)
  settle_all [] cells = pure cells
  settle_all (tx_hash ∷ rest) cells = do
    found ← (λ s. (s, or_panic (get_tx (known s) tx_hash)))
    logged (remove_conflicts found.1)
    settle_all rest (cells ++ found.1.cell ∷ [])

  -- The handler of `NewAccepted`.
  unfoldable pub on_new_accepted : List TxHash → Action (Sleet env) Error (Unit {0})
  on_new_accepted tx_hashes = do
    cells ← settle_all tx_hashes []
    prune_at_accepted_frontier
    modify (send (accepted_cells cells))

  abbrev when_new : Bool → Message → Sleet env → Sleet env
  when_new is_new message s = if is_new then send message s else s

  -- A received transaction that is new is queried; `none` says that it was not.
  unfoldable pub generate_tx : Cell → Action (Sleet env) Error (Option CellHash)
  generate_tx cell = do
    parents ← (λ s. (s, or_panic (select_parents s nparents)))
    let tx = Tx.new parents cell
    λ s. elim (on_receive_tx tx s).1 [
      | ok true ↦ (send (fresh_tx tx) (on_receive_tx tx s).0, ok (some (env.crypto.hash_cell cell)))
      | ok false ↦ ((on_receive_tx tx s).0, ok none)
      | err e ↦ ((on_receive_tx tx s).0, ok none)
      | panic ↦ ((on_receive_tx tx s).0, panic)
    ]

  -- The answer about a transaction that was received.
  unfoldable pub answer : TxHash → Sleet env → Result Error (Option Bool)
  answer tx_hash s =
      if is_accepted (known s) tx_hash
      then ok (some true)
      else if cannot_be_accepted (known s) tx_hash
      then ok (some false)
      else elim (is_strongly_preferred s tx_hash) [
        | ok b ↦ ok (some b)
        | err e ↦ panic
        | panic ↦ panic
      ]

  -- `none` is an answer that waits for the ancestors, on the channel `sender`.
  unfoldable pub query_tx : PeerId → Sender → Tx → Action (Sleet env) Error (Option Bool)
  query_tx id sender tx s =
      let (s', r) = on_receive_tx tx s in
      elim r [
        | ok is_new ↦
            let s1 = when_new is_new check_pending (when_new is_new (fresh_tx tx) s') in
            (s1, answer (hash env.crypto tx) s1)
        | err missing_ancestry ↦ (
          send (ask_for_ancestors (hash env.crypto tx) id)
              (record s' { pending_queries = s'.pending_queries ++ (tx, sender) ∷ [] }),
          ok none,
        )
        | err _ ↦ (s', ok (some false))
        | panic ↦ (s', panic)
      ]

  -- The answer to a query whose ancestors are there now.
  unfoldable pub resume : Tx → Sender → Action (Sleet env) Error (Unit {0})
  resume tx sender s =
      let (s', r) = on_receive_tx tx s in
      elim r [
        | ok is_new ↦
            let s1 = when_new is_new (fresh_tx tx) s' in
            elim (is_strongly_preferred s1 (hash env.crypto tx)) [
              | ok outcome ↦ (send (outcome_of sender outcome) s1, ok tt)
              | err e ↦ (s1, panic)
              | panic ↦ (s1, panic)
            ]
        | err e ↦ (send (outcome_of sender false) s', ok tt)
        | panic ↦ (s', panic)
      ]

  -- The loop over the pending queries, which come last first; `is_closed` says which channels are
  -- closed. The value is the queries that remain, the last first.
  unfoldable pub check_queries :
      (Sender → Bool) → List (Tx × Sender) → Action (Sleet env) Error (List (Tx × Sender))
  check_queries is_closed [] = pure []
  check_queries is_closed ((tx, sender) ∷ rest) = λ s.
      if has_parents s tx
      then (resume tx sender >> check_queries is_closed rest) s
      else if is_closed sender
      then check_queries is_closed rest s
      else (check_queries is_closed rest >>= λ remaining. pure ((tx, sender) ∷ remaining)) s

  unfoldable pub on_check_pending : (Sender → Bool) → Action (Sleet env) Error (Unit {0})
  on_check_pending is_closed = do
    queries ← gets (λ s. reverse s.pending_queries)
    modify (λ s. record s { pending_queries = [] })
    remaining ← check_queries is_closed queries
    modify (λ s. record s { pending_queries = reverse remaining })

  -- The loop over the ancestors that another node sent.
  unfoldable pub receive_ancestors : List Tx → Action (Sleet env) Error (Unit {0})
  receive_ancestors [] = modify (send check_pending)
  receive_ancestors (ancestor ∷ rest) = λ s.
      let (s', r) = on_receive_tx ancestor s in
      elim r [
        | ok is_new ↦ receive_ancestors rest (when_new is_new (fresh_tx ancestor) s')
        | err e ↦ receive_ancestors rest s'
        | panic ↦ (s', panic)
      ]
