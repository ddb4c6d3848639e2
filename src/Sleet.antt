-- ===== src/Sleet.antt =====
-- src/sleet: the consensus on transactions.
pub mod Tx
pub mod Bounded
pub mod Finality
pub mod State
pub mod Ancestors
pub mod Acceptance
pub mod Receiving
pub mod Frontier
pub mod Parents
pub mod Votes
pub mod Conflicts
pub mod Handlers
use zfx_subzero.Graph
use zfx_subzero.Storage
use zfx_subzero.Cell.Types.{Cell}

-- The errors of src/sleet/mod.rs that its own code makes.
pub data Error : Type 0 where
  graph : Graph.Error → Error
  storage : Storage.Error → Error
  invalid_coinbase_transaction : Cell → Error
  insufficient_weight missing_ancestry : Error
