-- ===== src/Alpha.antt =====
-- src/alpha/mod.rs: the errors of the `alpha` chain, and its parts.
pub mod Transfer
pub mod Stake
pub mod Coinbase
pub mod State
use Prim.Native.String.{String}
use zfx_subzero.Cell
use zfx_subzero.Graph

pub data Error : Type 0 where
  actix_mailbox : Error
  sled hex bincode dalek : String → Error
  cell : Cell.Error → Error
  graph : Graph.Error → Error
  bootstrap_consensus : Error
  unspendable_cell exceeds_available_funds zero_transfer zero_stake : Error
  invalid_coinbase invalid_stake : Error
  undefined_cell_ids existing_cell_ids exceeds_capacity : Error
