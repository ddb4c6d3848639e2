-- ===== src/Cell/Operation/Spending.antt =====
-- src/cell/cell_operation.rs: the loop that spends the outputs of the owner.
use mathlib.Core.List.{append-nil, append_assoc}
use zfx_subzero.Prelude.{
  ℕ, suc, ◌+◌, ◌-◌, ◌≤◌, ◌<◌, ◌≡◌, refl, sym, ◌∙◌, true, false, List, [], ◌∷◌, ◌++◌, map, arith,
  ltb, leb, length, take, inl, inr, Bool-cases, if◌then◌else◌,
}
use zfx_subzero.Cell.Types.{Capacity, CellHash, Output, Input, Keypair, Crypto, total}
use zfx_subzero.Cell.Operation.{ConsumeResult, new_input, consume_outputs}

-- The outputs of a list of outputs with their indices.
abbrev pub outputs_of : List (Output × ℕ) → List Output
outputs_of owned = map (λ p. p.0) owned

module _ (crypto : Crypto) (keypair : Keypair) (cell_hash : CellHash) (amount : Capacity) where
  abbrev pub inputs_of : List (Output × ℕ) → List Input
  inputs_of owned = map (λ p. new_input crypto keypair cell_hash p.1) owned

  abbrev pub run : List (Output × ℕ) → Capacity → ConsumeResult → ConsumeResult
  run = consume_outputs crypto keypair cell_hash amount

  -- Once the amount is consumed, the loop stops.
  run_stop :
      (rest : List (Output × ℕ)) (spending : Capacity) (r : ConsumeResult)
      → ltb r.consumed amount ≡ false
      → run rest spending r ≡ r
  unfolding consume_outputs
  run_stop [] spending r h = refl
  run_stop ((output, index) ∷ rest) spending r h = rw h

  -- The loop from `r` spends the first `k` outputs of `rest`.
  pub record Spends (rest : List (Output × ℕ)) (spending : Capacity) (r r' : ConsumeResult)
      : Type 0 where
    pub k : ℕ
    pub within : k ≤ length rest
    pub inputs : r'.inputs ≡ r.inputs ++ inputs_of (take k rest)
    pub consumed : r'.consumed ≡ amount
    pub balance : spending + r'.residue ≡ total (outputs_of (take k rest))

  -- The state after one output is spent.
  abbrev spend : Output → ℕ → Capacity → ConsumeResult → ConsumeResult
  spend output index spending r =
      let whole = leb output.capacity spending in
      record {
        consumed = r.consumed + (if whole then output.capacity else spending);
        residue = if whole then r.residue else output.capacity - spending;
        inputs = r.inputs ++ new_input crypto keypair cell_hash index ∷ [];
      }

  run_step :
      (output : Output) (index : ℕ) (rest : List (Output × ℕ)) (spending : Capacity)
      (r : ConsumeResult)
      → ltb r.consumed amount ≡ true
      → run ((output, index) ∷ rest) spending r
        ≡ run rest
            (if leb output.capacity spending then spending - output.capacity else spending)
            (spend output index spending r)
  unfolding consume_outputs
  run_step output index rest spending r h = rw h

  Spends-none :
      (rest : List (Output × ℕ)) (spending : Capacity) (r : ConsumeResult)
      → r.consumed ≡ amount
      → spending ≡ 0
      → r.residue ≡ 0
      → Spends rest spending r r
  unfolding total
  Spends-none rest spending r c s z = record {
    k = 0;
    within = omega arith;
    inputs = sym (append-nil r.inputs);
    consumed = c;
    balance = omega arith;
  }

  Spends-cons :
      (output : Output) (index : ℕ) (rest : List (Output × ℕ)) (spending spending' : Capacity)
      (r s r' : ConsumeResult)
      → s.inputs ≡ r.inputs ++ new_input crypto keypair cell_hash index ∷ []
      → spending ≡ output.capacity + spending'
      → Spends rest spending' s r'
      → Spends ((output, index) ∷ rest) spending r r'
  unfolding total
  Spends-cons output index rest spending spending' r s r' i e h = record {
    k = suc h.k;
    within = omega (arith, h.within);
    inputs = h.inputs ∙ rw i (append_assoc r.inputs (_ ∷ []) _);
    consumed = h.consumed;
    balance = omega (arith, h.balance);
  }

  Spends-last :
      (output : Output) (index : ℕ) (rest : List (Output × ℕ)) (spending : Capacity)
      (r : ConsumeResult)
      → r.consumed + spending ≡ amount
      → spending < output.capacity
      → Spends ((output, index) ∷ rest) spending r (record {
        consumed = r.consumed + spending;
        residue = output.capacity - spending;
        inputs = r.inputs ++ new_input crypto keypair cell_hash index ∷ [];
      })
  unfolding total
  Spends-last output index rest spending r c h = record {
    k = 1;
    within = omega arith;
    inputs = refl;
    consumed = c;
    balance = omega arith;
  }

  pub run-Spends :
      (rest : List (Output × ℕ)) (spending : Capacity) (r : ConsumeResult)
      → r.consumed + spending ≡ amount
      → r.residue ≡ 0
      → spending ≤ total (outputs_of rest)
      → Spends rest spending r (run rest spending r)
  unfolding total
  run-Spends [] spending r c z h =
      unfold consume_outputs in Spends-none [] spending r (omega arith) (omega arith) z
  run-Spends ((output, index) ∷ rest) spending r c z h = elim (Bool-cases (ltb r.consumed amount)) [
    | inr stop ↦
        rw (run_stop ((output, index) ∷ rest) spending r stop)
          (Spends-none _ spending r (ground arith) (ground arith) z)
    | inl more ↦
        rw (run_step output index rest spending r more)
          (elim (Bool-cases (leb output.capacity spending)) [
            | inl whole ↦ rw whole (
                Spends-cons output index rest spending (spending - output.capacity) r _ _ refl
                  (ground arith)
                  (run-Spends rest (spending - output.capacity) _ (ground arith) z (ground arith)))
            | inr part ↦ rw part (
                rw
                  (run_stop rest spending
                    (record {
                      consumed = r.consumed + spending;
                      residue = output.capacity - spending;
                      inputs = r.inputs ++ new_input crypto keypair cell_hash index ∷ [];
                    })
                    (ground arith))
                  (Spends-last output index rest spending r c (ground arith)))
          ])
  ]
