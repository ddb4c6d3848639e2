-- ===== src/Alpha/Stake.antt =====
-- src/alpha/stake.rs: locking capacity for a validator.
use zfx_subzero.Prelude.{ℕ, ◌+◌, ◌≤◌, ◌<◌, ◌^◌, ◌≡◌, ◌∙◌, List, arith, Result, ok, ◌>>=◌}
use zfx_subzero.Alpha.{Error}
use zfx_subzero.Alpha.Transfer.{with_change, total-with_change, Balances}
use zfx_subzero.Cell.Types.{
  Capacity, PublicKeyHash, Output, Cell, Keypair, Crypto, CellType, fee, total, new_inputs,
  new_outputs,
}
use zfx_subzero.Cell.Operation.{owned_outputs, consume_from_cell}
use zfx_subzero.Cell.Operation.Spending.{outputs_of}
use zfx_subzero.Cell.Operation.Conservation.{consume_from_cell-Takes}

pub record StakeOperation : Type 0 where
  pub cell : Cell
  pub node_id : ℕ
  pub address : PublicKeyHash
  pub capacity : Capacity

unfoldable pub stake_output : Crypto → ℕ → PublicKeyHash → Capacity → Output
stake_output crypto node_id pkh capacity = record {
  capacity = capacity;
  cell_type = CellType.stake;
  state = crypto.encode_stake node_id;
  lock = pkh;
}

unfoldable pub stake_cell : Crypto → StakeOperation → Keypair → Result Error Cell
unfolding stake_output with_change new_inputs new_outputs
stake_cell crypto op keypair = do
  r ← consume_from_cell crypto op.cell op.capacity keypair
  ok record {
    inputs = new_inputs r.inputs;
    outputs = new_outputs (
        with_change crypto op.address (stake_output crypto op.node_id op.address r.consumed)
          r.residue);
  }

module _ (crypto : Crypto) (op : StakeOperation) (keypair : Keypair) (owned : List (Output × ℕ))
    (found : owned_outputs crypto (crypto.hash_key keypair.public) 0 op.cell.outputs
      ≡ ok owned) where
  -- If the outputs of the cell have the right form, and those of the owner, below 2 ^ 64 in sum, hold
  -- the capacity, which is not 0, and the fee, then the stake succeeds, and its cell neither creates nor loses
  -- capacity.
  pub stake_cell-Balances :
      total (outputs_of owned) < 2 ^ 64
      → 0 < op.capacity
      → op.capacity + fee ≤ total (outputs_of owned)
      → (cell : Cell) × (stake_cell crypto op keypair ≡ ok cell)
        × Balances crypto op.cell keypair op.capacity owned cell
  unfolding stake_cell
  stake_cell-Balances small positive enough =
      let (r, done, takes) =
        consume_from_cell-Takes crypto op.cell op.capacity keypair owned found small positive
          enough in
      let main = stake_output crypto op.node_id op.address r.consumed in
      (
        record {
          inputs = new_inputs r.inputs;
          outputs = new_outputs (with_change crypto op.address main r.residue);
        },
        rw done,
        record {
          k = takes.k;
          within = takes.within;
          residue = r.residue;
          spent = takes.balance;
          balance =
              total-with_change crypto op.address main r.residue
              ∙ omega (arith, takes.balance, takes.consumed);
          inputs = rw takes.inputs;
        },
      )
