-- ===== src/Alpha/Transfer.antt =====
-- src/alpha/transfer.rs: moving capacity from one account to another.
use zfx_subzero.Prelude.{
  ℕ, ◌+◌, ◌-◌, ◌≤◌, ◌<◌, ◌^◌, ◌≡◌, ◌∙◌, ◌&&◌, List, [], ◌∷◌, arith, ltb, length, take, Result, ok,
  ◌>>=◌, if◌then◌else◌,
}
use zfx_subzero.Alpha.{Error}
use zfx_subzero.Cell.Types.{
  Capacity, PublicKeyHash, Output, Cell, Keypair, Crypto, CellType, fee, total, new_inputs,
  new_outputs, total-new_outputs,
}
use zfx_subzero.Cell.Operation.{owned_outputs, consume_from_cell}
use zfx_subzero.Cell.Operation.Spending.{outputs_of, inputs_of}
use zfx_subzero.Cell.Operation.Conservation.{consume_from_cell-Takes}

pub record TransferOperation : Type 0 where
  pub cell : Cell
  pub recipient_address : PublicKeyHash
  pub change_address : PublicKeyHash
  pub capacity : Capacity

unfoldable pub transfer_output : Crypto → PublicKeyHash → Capacity → Output
transfer_output crypto pkh capacity = record {
  capacity = capacity;
  cell_type = CellType.transfer;
  state = crypto.encode_transfer;
  lock = pkh;
}

-- The outputs of a new cell: the main one, and the change where more than the fee is left.
unfoldable pub with_change : Crypto → PublicKeyHash → Output → Capacity → List Output
unfolding transfer_output
with_change crypto change_address main residue =
    if ltb fee residue && ltb 0 (residue - fee)
    then main ∷ transfer_output crypto change_address (residue - fee) ∷ []
    else main ∷ []

unfoldable pub transfer_cell : Crypto → TransferOperation → Keypair → Result Error Cell
unfolding with_change transfer_output new_inputs new_outputs
transfer_cell crypto op keypair = do
  r ← consume_from_cell crypto op.cell op.capacity keypair
  ok record {
    inputs = new_inputs r.inputs;
    outputs = new_outputs (
        with_change crypto op.change_address
          (transfer_output crypto op.recipient_address r.consumed) r.residue);
  }

-- What is paid: the fee, or what is left where that is no more than the fee.
pub paid : Capacity → Capacity
paid residue = if ltb fee residue then fee else residue

pub paid-le_fee : (residue : Capacity) → paid residue ≤ fee
unfolding paid
paid-le_fee residue = ground arith

pub total-with_change :
    (crypto : Crypto) (change_address : PublicKeyHash) (main : Output) (residue : Capacity)
    → total (new_outputs (with_change crypto change_address main residue)) + paid residue
      ≡ main.capacity + residue
total-with_change crypto change_address main residue =
    rw (total-new_outputs (with_change crypto change_address main residue))
      (unfold with_change total paid in ground arith)

-- A cell made from outputs of an owner: it spends the first `k` of them, and the capacity of its
-- own outputs is what they hold less what is paid, at most the fee.
pub record Balances (crypto : Crypto) (source : Cell) (keypair : Keypair) (amount : Capacity)
    (owned : List (Output × ℕ)) (cell : Cell) : Type 0 where
  pub k : ℕ
  pub within : k ≤ length owned
  pub residue : Capacity
  pub spent : amount + residue ≡ total (outputs_of (take k owned))
  pub balance : total cell.outputs + paid residue ≡ total (outputs_of (take k owned))
  pub inputs :
      cell.inputs
      ≡ new_inputs (inputs_of crypto keypair (crypto.hash_cell source) amount (take k owned))

module _ (crypto : Crypto) (op : TransferOperation) (keypair : Keypair) (owned : List (Output × ℕ))
    (found : owned_outputs crypto (crypto.hash_key keypair.public) 0 op.cell.outputs
      ≡ ok owned) where
  -- If the outputs of the cell have the right form, and those of the owner, below 2 ^ 64 in sum, hold
  -- the capacity, which is not 0, and the fee, then the transfer succeeds. Its cell neither creates nor loses
  -- capacity: its outputs and what is paid make up the outputs that it spends.
  pub transfer_cell-Balances :
      total (outputs_of owned) < 2 ^ 64
      → 0 < op.capacity
      → op.capacity + fee ≤ total (outputs_of owned)
      → (cell : Cell) × (transfer_cell crypto op keypair ≡ ok cell)
        × Balances crypto op.cell keypair op.capacity owned cell
  unfolding transfer_cell
  transfer_cell-Balances small positive enough =
      let (r, done, takes) =
        consume_from_cell-Takes crypto op.cell op.capacity keypair owned found small positive
          enough in
      let main = transfer_output crypto op.recipient_address r.consumed in
      (
        record {
          inputs = new_inputs r.inputs;
          outputs = new_outputs (with_change crypto op.change_address main r.residue);
        },
        rw done,
        record {
          k = takes.k;
          within = takes.within;
          residue = r.residue;
          spent = takes.balance;
          balance =
              total-with_change crypto op.change_address main r.residue
              ∙ omega (arith, takes.balance, takes.consumed);
          inputs = rw takes.inputs;
        },
      )
