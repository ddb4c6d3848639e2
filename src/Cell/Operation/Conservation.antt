-- ===== src/Cell/Operation/Conservation.antt =====
-- src/cell/cell_operation.rs: `consume_from_cell` takes exactly the amount, out of outputs of the
-- owner whose capacities are what is consumed and what is left.
use zfx_subzero.Prelude.{
  ℕ, ◌+◌, ◌≤◌, ◌<◌, ◌^◌, ◌≡◌, refl, Bool, true, false, List, [], ◌∷◌, map, arith, eqb, length, take,
  Result, ok, err, if◌then◌else◌, ◌>>=◌,
}
use zfx_subzero.Alpha.{Error, exceeds_available_funds, unspendable_cell, zero_transfer}
use zfx_subzero.Cell.Types.{Capacity, Output, Cell, Keypair, Crypto, fee, total, sum-eq-total}
use zfx_subzero.Cell.Operation.{
  ConsumeResult, validate_capacity, new_input, owned_outputs, consume_outputs, consume_from_cell,
}
use zfx_subzero.Cell.Operation.Spending.{outputs_of, run-Spends}

-- The outcome of a successful `consume_from_cell`: what it spends is the first `k` outputs of the
-- owner.
pub record Takes (crypto : Crypto) (cell : Cell) (amount : Capacity) (keypair : Keypair)
    (owned : List (Output × ℕ)) (r : ConsumeResult) : Type 0 where
  pub k : ℕ
  pub within : k ≤ length owned
  pub consumed : r.consumed ≡ amount
  pub balance : amount + r.residue ≡ total (outputs_of (take k owned))
  pub inputs :
      r.inputs ≡ map (λ p. new_input crypto keypair (crypto.hash_cell cell) p.1) (take k owned)

validate_capacity-ok :
    (outputs : List Output) (amount : Capacity)
    → total outputs < 2 ^ 64
    → 0 < amount
    → amount + fee ≤ total outputs
    → validate_capacity outputs amount fee ≡ ok tt
unfolding validate_capacity
validate_capacity-ok outputs amount small positive h =
    rw (sum-eq-total outputs small) (ground arith)

validate_capacity-err :
    (outputs : List Output) (amount : Capacity)
    → total outputs < 2 ^ 64
    → total outputs < amount + fee
    → validate_capacity outputs amount fee
      ≡ (if eqb amount 0 then err zero_transfer else err exceeds_available_funds)
unfolding validate_capacity
validate_capacity-err outputs amount small h = rw (sum-eq-total outputs small) (ground arith)

answer-ok :
    (owned : List (Output × ℕ)) (r : ConsumeResult)
    → 0 < total (outputs_of owned)
    → ◌≡◌ {A = Result Error ConsumeResult}
        (elim owned [ [] ↦ err unspendable_cell | _ ↦ ok r ])
        (ok r)
unfolding total
answer-ok [] r h = absurd (omega arith)
answer-ok (p ∷ owned) r h = refl

refused :
    {A B : Type 0} (b : Bool) (f : A → Result Error B)
    → ((if b then err zero_transfer else err exceeds_available_funds) >>= f)
      ≡ (if b then err zero_transfer else err exceeds_available_funds)
refused true f = refl
refused false f = refl

module _ (crypto : Crypto) (cell : Cell) (amount : Capacity) (keypair : Keypair)
    (owned : List (Output × ℕ))
    (found : owned_outputs crypto (crypto.hash_key keypair.public) 0 cell.outputs ≡ ok owned) where
  -- If the outputs of the cell have the right form, and those of the owner, below 2 ^ 64 in sum, hold
  -- the amount, which is not 0, and the fee, then
  -- `consume_from_cell` succeeds: it consumes exactly the amount, out of the first `k` outputs of the
  -- owner, whose capacities are the amount and the residue, with one input for each.
  pub consume_from_cell-Takes :
      total (outputs_of owned) < 2 ^ 64
      → 0 < amount
      → amount + fee ≤ total (outputs_of owned)
      → (r : ConsumeResult) × (consume_from_cell crypto cell amount keypair ≡ ok r)
        × Takes crypto cell amount keypair owned r
  unfolding consume_from_cell
  consume_from_cell-Takes small positive enough =
      let start : ConsumeResult = record { consumed = 0; residue = 0; inputs = [] } in
      let hash = crypto.hash_cell cell in
      let spends =
        run-Spends crypto keypair hash amount owned amount start (omega arith) refl (omega arith) in
      (
        consume_outputs crypto keypair hash amount owned amount start,
        rw found (
            rw (validate_capacity-ok (outputs_of owned) amount small positive enough)
              (answer-ok owned _ (omega arith))),
        record {
          k = spends.k;
          within = spends.within;
          consumed = spends.consumed;
          balance = spends.balance;
          inputs = spends.inputs;
        },
      )

  -- If the outputs of the cell have the right form and those of the owner, below 2 ^ 64 in sum,
  -- hold less than the amount and the fee, then `consume_from_cell` is the error `ZeroTransfer` for
  -- an amount of 0, and `ExceedsAvailableFunds` for any other.
  pub consume_from_cell-err :
      total (outputs_of owned) < 2 ^ 64
      → total (outputs_of owned) < amount + fee
      → consume_from_cell crypto cell amount keypair
        ≡ (if eqb amount 0 then err zero_transfer else err exceeds_available_funds)
  unfolding consume_from_cell
  consume_from_cell-err small h =
      rw found
        (rw (validate_capacity-err (outputs_of owned) amount small h) (refused (eqb amount 0) _))
