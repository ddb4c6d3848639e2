-- ===== src/Examples.antt =====
-- Runs of the theorems at concrete inputs.
pub mod Graphs
pub mod Cells
pub mod Conflicts
pub mod Transactions
pub mod Blocks
pub mod Peers
pub mod Mempool
pub mod Ledger
pub mod Heights
pub mod Arrivals
pub mod Consensus
pub mod Chain
pub mod Progeny
