-- ===== src/Examples/Mempool.antt =====
-- The state of src/sleet/sleet.rs: one transaction in the graph, its cell with 20 votes, and a second
-- transaction that builds on it.
use zfx_subzero.Prelude.{ℕ, ◌+◌, ◌≡◌, refl, ltb, [], ◌∷◌, true, false, ok, nat_eq, arith}
use zfx_subzero.Prelude.HashSet
use zfx_subzero.Prelude.HashSet.{contains, IsDistinct}
use zfx_subzero.Prelude.HashMap
use zfx_subzero.Prelude.HashMap.{HashMap, contains_key, get-insert, get-remove}
use zfx_subzero.Prelude.Checks.{all_ok}
use zfx_subzero.Graph.Dag.{Dag}
use zfx_subzero.Graph.Dag.Invariant.{IsWellFormed}
use zfx_subzero.Graph.Dag.Search.{dfs, collect, next, next_from, push_unvisited}
use zfx_subzero.Graph.Dag.Search.Walk.{Reach}
use zfx_subzero.Graph.Dag.Search.DepthFirst.{IsWellFormed-IsClosed}
use zfx_subzero.Graph.Dag.Search.Ancestry.{Reach-contains_key}
use zfx_subzero.Graph.ConflictGraph.{is_singleton_set}
use zfx_subzero.Graph.ConflictGraph.Votes.{is_preferred, get_confidence, is_singleton}
use zfx_subzero.Storage.Txs
use zfx_subzero.Storage.{Sled}
use zfx_subzero.Sleet.Tx.{Tx, TxHash, queried}
use zfx_subzero.Sleet.Finality
use zfx_subzero.Sleet.Finality.{is_accepted_tx}
use zfx_subzero.Sleet.State.{Env, Sleet}
use zfx_subzero.Sleet.Ancestors.{is_strongly_preferred, is_accepted}
use zfx_subzero.Examples.Cells.{toy}
use zfx_subzero.Examples.Conflicts.{spender, pending_graph}

-- A database as a map.
abbrev pub map_db : {V : Type 0} → Sled V
map_db {V} = record {
  Db = HashMap ℕ V;
  read = λ db h. HashMap.get h db;
  write = HashMap.insert;
  erase = HashMap.remove;
  read-write = λ k tx db j. get-insert k tx db j;
  read-erase = λ k db j. get-remove k db j;
}

abbrev pub env : Env
env = record {
  crypto = toy;
  sled = map_db;
  weights = record {
    Weight = ℕ;
    zero_weight = 0;
    half = 5;
    add = λ a b. a + b;
    gtb = λ a b. ltb b a;
  };
}

abbrev pub first_tx : Tx
first_tx = record { parents = []; cell = spender 10; status = queried }

abbrev pub second_tx : Tx
second_tx = record { parents = 10 ∷ []; cell = spender 20; status = queried }

-- The graph of the first transaction, with the chits of `more` besides.
abbrev pub alone : HashMap ℕ ℕ → Dag TxHash
alone more = record { g = (10, []) ∷ []; inv = (10, []) ∷ []; chits = (10, 0) ∷ more }

abbrev pub mempool : HashMap TxHash Tx → HashMap ℕ ℕ → Sleet env
mempool more chits = record {
  committee = [];
  known_txs = (10, first_tx) ∷ more;
  conflict_graph = pending_graph 20;
  live_cells = record { size = 3000; elems = []; queue = [] };
  accepted_txs = record { size = 3000; elems = []; queue = [] };
  pending_queries = [];
  dag = alone chits;
  accepted_frontier = [];
  old_frontier = [];
  bootstrapped = false;
  messages = [];
}

pub alone-IsWellFormed : (more : HashMap ℕ ℕ) → IsWellFormed (alone more)
unfolding HashMap.get contains
alone-IsWellFormed more = record {
  same_keys = λ u. refl;
  mirrored = λ u v. ground arith;
  has_chit = λ u h. ground arith;
}

-- It is the only vertex.
pub only_first : (more : HashMap ℕ ℕ) (u : TxHash) → contains_key u (alone more).g ≡ true → 10 ≡ u
unfolding HashMap.get
only_first more u h = ground arith

pub first_present : (more : HashMap ℕ ℕ) → contains_key 10 (alone more).g ≡ true
unfolding HashMap.get
first_present more = refl

pub Reach-first : (more : HashMap ℕ ℕ) (u : TxHash) → Reach (alone more).g 10 u → 10 ≡ u
Reach-first more u r = only_first more u (
    Reach-contains_key (IsWellFormed-IsClosed (alone more) (alone-IsWellFormed more))
      (first_present more) r)

pub first_preferred : is_strongly_preferred (mempool [] []) 10 ≡ ok true
unfolding is_strongly_preferred all_ok dfs collect next next_from push_unvisited is_preferred
    HashMap.get HashSet.contains HashSet.insert
first_preferred = refl

pub first_accepted : is_accepted (mempool [] []) 10 ≡ ok true
unfolding is_accepted all_ok dfs collect next next_from push_unvisited is_accepted_tx get_confidence
    is_singleton Finality.is_accepted Finality.cannot_be_accepted Txs.is_accepted_tx
    Txs.cannot_be_accepted HashMap.get HashSet.contains HashSet.insert is_singleton_set
first_accepted = refl
