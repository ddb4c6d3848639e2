-- ===== src/Lib.antt =====
-- zfx-subzero: the core of the node, modelled and verified.
--
-- The node runs three consensus protocols over primitive cells. `ice` (src/ice) decides which peers
-- are live: it samples peers, collects their choices in quorums and keeps a decision and a
-- conviction for each. `sleet` (src/sleet) decides transactions: it keeps them in a directed acyclic
-- graph (src/graph/dag.rs), where a chit of a descendant is a vote for all ancestors, and in a
-- conflict graph (src/graph/conflict_graph.rs) that finds the cells that spend the same output.
-- `hail` (src/hail) decides blocks: it keeps them in a graph of the same type and in a map of
-- conflict sets by height. `alpha` (src/alpha) makes the cells: transfers, stakes and coinbases
-- take what they spend out of a cell by src/cell/cell_operation.rs.
--
-- The files:
--   Prelude   results and panics, actions on a state that keep what was written before an early
--             return, and std's HashSet and HashMap as lists without repetition
--   Cell      Types: the data of src/cell, and the hashes, signatures and encodings of other crates
--             as the record Crypto; Ids: cell_id.rs and cell_ids.rs; Operation: cell_operation.rs
--   Alpha     transfer.rs, stake.rs, coinbase.rs; State: state.rs and Output::verify of output.rs
--   Graph     Dag: dag.rs, with Search for conviction, bfs and dfs, and Invariant for what
--             insert_vx and remove_vx keep; ConflictGraph: conflict_graph.rs with the conflict sets
--             of src/sleet/conflict_set.rs, with Removal for accept_cell and remove_cell, Votes for
--             update_conflict_set and the getters; DependencyGraph: dependency_graph.rs
--   Storage   the sled database as the records Sled and Blocks; Txs: src/storage/tx.rs; Keys, Blocks:
--             src/storage/block.rs
--   Sleet     State: the struct Sleet of src/sleet/sleet.rs, its messages and parameters; Tx: tx.rs;
--             Bounded: util/bounded_hashset.rs and bounded_hashmap.rs; Finality: is_accepted_tx;
--             Ancestors: is_strongly_preferred, update_ancestral_preference and the like;
--             Acceptance: compute_accepted_txs; Receiving: on_receive_tx; Frontier:
--             compute_accepted_frontier; Parents: select_parents; Votes: the query's effect on
--             confidence; Conflicts: remove_progeny and remove_conflicts; Handlers: the handlers
--             QueryComplete, QueryIncomplete, NewAccepted, GenerateTx, QueryTx, CheckPending,
--             ReceiveAncestors
--   Hail      ConflictMap: conflict_set.rs, conflict_map.rs and is_accepted_block of hail.rs; Actor:
--             block.rs and the rest of hail.rs, but for the committee's handlers
--   Ice       Quorum: quorum.rs; Reservoir: reservoir.rs, with the constants of constants.rs
--   Examples  runs of the theorems at concrete inputs
--
-- How it is modelled. Functions carry the names of the source; TryInto of a coinbase operation is
-- coinbase_cell, transfer and stake are transfer_cell and stake_cell. A method that takes `&mut self`
-- returns the new state; where it can fail it is an Action, which returns the state also on an error.
-- A handler that sends to other actors appends to a list of messages in its state. What comes from
-- other crates (hashes, signatures, encodings, the choice of a sample) is a field of a record: Crypto,
-- and the records Env of Sleet and Hail.
-- The keys of blocks are byte strings: the layout that `#[repr(C)]` and `U64<BigEndian>` give them is
-- written out in Storage/Keys.
-- An `unwrap` of nothing is `panic`. A u64 sum and a u8 counter are taken modulo 2 ^ 64 and 2 ^ 8, as
-- release builds do. The field `data` of an output is named `state`. Byte arrays of fixed size are numbers.
-- Iteration over a HashMap or HashSet follows the list; no theorem names that order.
--
-- Bounds and fuel. conviction, bfs and dfs run on fuel, one unit for each vertex that is taken off
-- the worklist, and get the number of vertices and two, since each vertex is put there at most once;
-- running out would be a panic, or end the list of dfs. The loop of sample gets five rounds, since K
-- is 2 and each pick takes at most two rounds. remove_progeny gets one round more than the conflict
-- graph has conflict sets, since every round removes one or ends with an error. The bounded set of a
-- node has size 3000. topological gets a round for each root and, for each vertex, one for each vertex:
-- a round that adds roots takes the edges of a vertex away. Sets of cell ids are lists, so the maps keyed
-- by them, in Cell/Maps, compare keys as sets.
--
-- Not modelled: the network and TLS, logging, failures of the disk, the storage of cells and
-- get_blocks_in_range;
-- of sleet the bootstrap, the live committee and the handlers that only read; of hail the committee's
-- handlers, QueryComplete and AcceptedCells; get_ancestors and topological_sort of the graph, the
-- genesis block and alpha's actor, the committee, ice's actor and dissemination, and the
-- view.
pub mod Prelude
pub mod Cell
pub mod Graph
pub mod Alpha
pub mod Hail
pub mod Storage
pub mod Sleet
pub mod Ice
pub mod Examples
