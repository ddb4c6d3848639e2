-- ===== src/Cell/Operation.antt =====
-- src/cell/cell_operation.rs and the parts of src/cell that it calls: taking an amount out of the
-- outputs of an owner.
pub mod Spending
pub mod Owned
pub mod Conservation
use zfx_subzero.Prelude.{
  ℕ, ◌+◌, ◌-◌, ◌%◌, ◌^◌, Bool, ◌||◌, List, [], ◌∷◌, map, ◌++◌, eqb, ltb, leb, length, Result, ok,
  err, ◌>>=◌, ◌>>◌, if◌then◌else◌,
}
use zfx_subzero.Alpha.{Error, exceeds_available_funds, unspendable_cell, zero_transfer}
use zfx_subzero.Cell.Types.{
  Capacity, CellHash, PublicKeyHash, Output, OutputIndex, Input, Cell, Keypair, Crypto, coinbase,
  transfer, stake, fee, sum,
}

pub record ConsumeResult : Type 0 where
  pub consumed : Capacity
  pub residue : Capacity
  pub inputs : List Input

-- `Output::validate_capacity` accepts each output.
unfoldable pub validate_output_capacity : Output → Result Error (Unit {0})
validate_output_capacity output = ok tt

unfoldable pub validate_capacity : List Output → Capacity → Capacity → Result Error (Unit {0})
unfolding sum
validate_capacity outputs capacity minimum =
    if eqb capacity 0
    then err zero_transfer
    else if ltb (sum outputs) minimum || ltb (sum outputs - minimum) capacity
    then err exceeds_available_funds
    else ok tt

module _ (crypto : Crypto) where
  open crypto use {
    hash_key, hash_cell, hash_index, sign, decode_coinbase, decode_transfer, decode_stake,
  }

  unfoldable pub validate_output : Output → Result Error (Unit {0})
  validate_output output = elim output.cell_type [
    | coinbase ↦ decode_coinbase output.state
    | transfer ↦ decode_transfer output.state
    | stake ↦ decode_stake output.state >>= λ _. ok tt
  ]

  -- `Input::new`
  unfoldable pub new_input : Keypair → CellHash → ℕ → Input
  new_input keypair cell_hash index = record {
    output_index = record { cell_hash = cell_hash; index = index };
    unlock = record {
      public_key = keypair.public;
      signature = sign keypair (hash_index cell_hash index);
    };
  }

  -- The first loop: the outputs of the owner, each with its index, a `u8`.
  unfoldable pub owned_outputs : PublicKeyHash → ℕ → List Output → Result Error (List (Output × ℕ))
  unfolding validate_output validate_output_capacity
  owned_outputs pkh index [] = ok []
  owned_outputs pkh index (output ∷ outputs) = do
    validate_output_capacity output
    validate_output output
    rest ← owned_outputs pkh ((index + 1) % 2 ^ 8) outputs
    ok (if eqb output.lock pkh then (output, index) ∷ rest else rest)

  -- The second loop; `spending` is what is still to be taken. The amount bounds what is consumed,
  -- so that no sum here wraps.
  unfoldable pub consume_outputs :
      Keypair → CellHash → Capacity → List (Output × ℕ) → Capacity → ConsumeResult → ConsumeResult
  unfolding new_input
  consume_outputs keypair cell_hash amount [] spending r = r
  consume_outputs keypair cell_hash amount ((output, index) ∷ rest) spending r =
      let whole = leb output.capacity spending in
      let later =
        consume_outputs keypair cell_hash amount rest
          (if whole then spending - output.capacity else spending)
          (record {
            consumed = r.consumed + (if whole then output.capacity else spending);
            residue = if whole then r.residue else output.capacity - spending;
            inputs = r.inputs ++ new_input keypair cell_hash index ∷ [];
          }) in
      if ltb r.consumed amount then later else r

  unfoldable pub consume_from_cell : Cell → Capacity → Keypair → Result Error ConsumeResult
  consume_from_cell cell amount owner = do
    owned ← owned_outputs (hash_key owner.public) 0 cell.outputs
    validate_capacity (map (λ p. p.0) owned) amount fee
    let start : ConsumeResult = record { consumed = 0; residue = 0; inputs = [] }
    let result : ConsumeResult = consume_outputs owner (hash_cell cell) amount owned amount start
    elim owned [ [] ↦ err unspendable_cell | _ ↦ ok result ]
