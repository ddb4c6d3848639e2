-- ===== src/Sleet/State.antt =====
-- src/sleet/sleet.rs: the state of the actor `Sleet`, the messages that it sends, and what it takes
-- from outside: hashes, the database, `f64`. A method that takes `&mut self` is an action, so that
-- what it wrote before an early return stays.
use zfx_subzero.Prelude.{ℕ, Bool, false, List, [], ◌++◌, ◌∷◌, map_err}
use zfx_subzero.Prelude.HashSet.{HashSet}
use zfx_subzero.Prelude.HashMap.{HashMap}
use zfx_subzero.Prelude.Action.{Action}
use zfx_subzero.Graph
use zfx_subzero.Graph.Dag
use zfx_subzero.Graph.Dag.{Dag}
use zfx_subzero.Graph.ConflictGraph
use zfx_subzero.Graph.ConflictGraph.{ConflictGraph}
use zfx_subzero.Storage
use zfx_subzero.Storage.{Sled}
use zfx_subzero.Storage.Txs.{KnownTxs}
use zfx_subzero.Sleet.{Error, graph, storage}
use zfx_subzero.Sleet.Tx.{TxHash, Tx}
use zfx_subzero.Sleet.Bounded.{BoundedHashSet, BoundedHashMap, new_set, new_map}
use zfx_subzero.Ice.{PeerId}
use zfx_subzero.Cell.Types.{CellHash, Cell, Crypto}

-- The operations of `f64` on weights.
pub record Weights : Type 1 where
  pub Weight : Type 0
  pub zero_weight : Weight
  pub half : Weight
  pub add : Weight → Weight → Weight
  pub gtb : Weight → Weight → Bool

pub record Env : Type 1 where
  pub crypto : Crypto
  pub sled : Sled Tx
  pub weights : Weights

-- The end of a channel on which a query waits for its answer, by number.
abbrev pub Sender : Type 0
Sender = ℕ

-- What is sent: to the actor itself by `notify`, to `hail`, or on a channel.
pub data Message : Type 0 where
  fresh_tx : Tx → Message
  check_pending : Message
  new_accepted : List TxHash → Message
  ask_for_ancestors : TxHash → PeerId → Message
  fetch_with_ancestry : HashSet TxHash → Message
  accepted_cells : List Cell → Message
  outcome_of : Sender → Bool → Message

-- `messages` holds what was sent, the first message first.
pub record Sleet (env : Env) : Type 0 where
  pub committee : HashMap PeerId env.weights.Weight
  pub known_txs : env.sled.Db
  pub conflict_graph : ConflictGraph
  pub live_cells : BoundedHashMap CellHash Cell
  pub accepted_txs : BoundedHashSet TxHash
  pub pending_queries : List (Tx × Sender)
  pub dag : Dag TxHash
  pub accepted_frontier : HashSet TxHash
  pub old_frontier : HashSet TxHash
  pub bootstrapped : Bool
  pub messages : List Message

module _ (env : Env) where
  -- `Sleet::new`, on an empty database.
  unfoldable pub new : env.sled.Db → Sleet env
  new db = record {
    committee = [];
    known_txs = db;
    conflict_graph = ConflictGraph.new [];
    live_cells = new_map 3000;
    accepted_txs = new_set 3000;
    pending_queries = [];
    dag = Dag.new;
    accepted_frontier = [];
    old_frontier = [];
    bootstrapped = false;
    messages = [];
  }

module _ {env : Env} where
  -- What is read from the storage.
  abbrev pub known : Sleet env → KnownTxs
  known s = env.sled.read s.known_txs

  abbrev pub send : Message → Sleet env → Sleet env
  send message s = record s { messages = s.messages ++ message ∷ [] }

  -- An action on one part of the state, its error turned into one of `sleet`.
  abbrev pub on_conflict_graph :
      {A : Type 0} → Action ConflictGraph Graph.Error A → Action (Sleet env) Error A
  on_conflict_graph act s = (
    record s { conflict_graph = (act s.conflict_graph).0 },
    map_err graph (act s.conflict_graph).1,
  )

  abbrev pub on_dag : {A : Type 0} → Action (Dag TxHash) Graph.Error A → Action (Sleet env) Error A
  on_dag act s = (record s { dag = (act s.dag).0 }, map_err graph (act s.dag).1)

  abbrev pub on_known_txs :
      {A : Type 0} → Action env.sled.Db Storage.Error A → Action (Sleet env) Error A
  on_known_txs act s =
      (record s { known_txs = (act s.known_txs).0 }, map_err storage (act s.known_txs).1)

  abbrev pub on_accepted_txs :
      {A : Type 0} → Action (BoundedHashSet TxHash) Error A → Action (Sleet env) Error A
  on_accepted_txs act s =
      (record s { accepted_txs = (act s.accepted_txs).0 }, (act s.accepted_txs).1)
