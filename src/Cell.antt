-- ===== src/Cell.antt =====
-- src/cell/mod.rs: the extended UTXO cell, and the errors of its operations.
pub mod Types
pub mod Ids
pub mod Maps
pub mod Operation
use Prim.Native.String.{String}

pub data Error : Type 0 where
  hex bincode dalek : String → Error
  invalid_coinbase invalid_stake : Error
