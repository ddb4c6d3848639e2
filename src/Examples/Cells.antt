-- ===== src/Examples/Cells.antt =====
-- The cells of src/cell and src/alpha, and the graph of src/graph/conflict_graph.rs.
use zfx_subzero.Prelude.{
  ℕ, ◌+◌, ◌*◌, ◌≡◌, refl, List, [], ◌∷◌, ok, err, eqb, if◌then◌else◌, arith, nat_eq,
}
use zfx_subzero.Alpha.{exceeds_available_funds, zero_transfer}
use zfx_subzero.Alpha.Transfer.{TransferOperation, transfer_cell, Balances, transfer_cell-Balances}
use zfx_subzero.Alpha.Stake.{StakeOperation, stake_cell, stake_cell-Balances}
use zfx_subzero.Cell.Types.{Output, Cell, Keypair, Crypto, total, CellType}
use zfx_subzero.Cell.Operation.{
  ConsumeResult, owned_outputs, validate_output, validate_output_capacity, consume_from_cell,
}
use zfx_subzero.Cell.Operation.Conservation.{Takes, consume_from_cell-Takes, consume_from_cell-err}

-- A stand-in for the hashes, signatures and encodings.
abbrev pub toy : Crypto
toy = record {
  hash_key = λ key. key;
  hash_cell = λ cell. elim cell.outputs [ [] ↦ 0 | o ∷ _ ↦ o.capacity ];
  hash_index = λ hash index. 256 * hash + index;
  sign = λ keypair id. keypair.secret + id;
  encode_coinbase = 1 ∷ [];
  encode_transfer = 2 ∷ [];
  encode_stake = λ id. 3 ∷ id ∷ [];
  decode_coinbase = λ bytes. ok tt;
  decode_transfer = λ bytes. ok tt;
  decode_stake = λ bytes. ok 0;
}

abbrev pub output : ℕ → ℕ → Output
output lock capacity = record {
  capacity = capacity;
  cell_type = CellType.transfer;
  state = 2 ∷ [];
  lock = lock;
}

abbrev alice : Keypair
alice = record { public = 7; secret = 70 }

-- Alice owns the first and the last output.
abbrev purse : Cell
purse = record { inputs = []; outputs = output 7 100 ∷ output 8 50 ∷ output 7 30 ∷ [] }

abbrev owned : List (Output × ℕ)
owned = (output 7 100, 0) ∷ (output 7 30, 2) ∷ []

owned_found : owned_outputs toy 7 0 purse.outputs ≡ ok owned
unfolding owned_outputs validate_output validate_output_capacity
owned_found = refl

consume_from_cell-Takes_example :
    (r : ConsumeResult) × (consume_from_cell toy purse 110 alice ≡ ok r)
    × Takes toy purse 110 alice owned r
unfolding total
consume_from_cell-Takes_example =
    consume_from_cell-Takes toy purse 110 alice owned owned_found (omega arith) (omega arith)
      (omega arith)

consume_from_cell-err_example :
    consume_from_cell toy purse 128 alice
    ≡ (if eqb 128 0 then err zero_transfer else err exceeds_available_funds)
unfolding total
consume_from_cell-err_example =
    consume_from_cell-err toy purse 128 alice owned owned_found (omega arith) (omega arith)

abbrev gift : TransferOperation
gift = record { cell = purse; recipient_address = 8; change_address = 7; capacity = 110 }

transfer_cell-Balances_example :
    (cell : Cell) × (transfer_cell toy gift alice ≡ ok cell)
    × Balances toy purse alice 110 owned cell
unfolding total
transfer_cell-Balances_example =
    transfer_cell-Balances toy gift alice owned owned_found (omega arith) (omega arith)
      (omega arith)

abbrev bond : StakeOperation
bond = record { cell = purse; node_id = 5; address = 7; capacity = 110 }

stake_cell-Balances_example :
    (cell : Cell) × (stake_cell toy bond alice ≡ ok cell) × Balances toy purse alice 110 owned cell
unfolding total
stake_cell-Balances_example =
    stake_cell-Balances toy bond alice owned owned_found (omega arith) (omega arith) (omega arith)
