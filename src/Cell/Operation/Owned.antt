-- ===== src/Cell/Operation/Owned.antt =====
-- src/cell/cell_operation.rs: the loop that finds the outputs of the owner.
use zfx_subzero.Prelude.{
  ℕ, suc, ◌+◌, ◌-◌, ◌≤◌, ◌^◌, ◌≡◌, sym, subst, List, [], ◌∷◌, arith, eqb, length, get_elem?, All,
  some, inl, inr, Bool-cases, OnOk, OnOk-bind, OnOk-elim, eqb_iff, ◌%◌, ok, if◌then◌else◌,
}
use zfx_subzero.Cell.Types.{Output, Crypto, total}
use zfx_subzero.Cell.Operation.{validate_output, owned_outputs}
use zfx_subzero.Cell.Operation.Spending.{outputs_of}

-- Where an output of the owner stands: its lock, and its place in the cell from `index` on.
abbrev IsOwned : ℕ → List Output → ℕ → Output × ℕ → Type 0
IsOwned pkh outputs index p =
    (p.0.lock ≡ pkh) × (index ≤ p.1) × (get_elem? outputs (p.1 - index) ≡ some p.0)

module _ (pkh : ℕ) where
  IsOwned-shift :
      (output : Output) (outputs : List Output) (index : ℕ) (owned : List (Output × ℕ))
      → All (IsOwned pkh outputs (index + 1)) owned
      → All (IsOwned pkh (output ∷ outputs) index) owned
  IsOwned-shift output outputs index [] h = tt
  IsOwned-shift output outputs index ((o, i) ∷ owned) ((l, b, g), h) = (
    (l, omega arith, (let e : i - index ≡ suc (i - (index + 1)) = omega arith in rw e g)),
    IsOwned-shift output outputs index owned h,
  )

  abbrev AreOwned : ℕ → List Output → List (Output × ℕ) → Type 0
  AreOwned index outputs owned =
      All (IsOwned pkh outputs index) owned × (total (outputs_of owned) ≤ total outputs)

  AreOwned-cons :
      (index : ℕ) (output : Output) (outputs : List Output) (rest : List (Output × ℕ))
      → AreOwned (index + 1) outputs rest
      → AreOwned index
          (output ∷ outputs)
          (if eqb output.lock pkh then (output, index) ∷ rest else rest)
  unfolding total
  AreOwned-cons index output outputs rest h = elim (Bool-cases (eqb output.lock pkh)) [
    | inl own ↦
        let here : index - index ≡ 0 = omega arith in
        rw own (
          (
            ((eqb_iff output.lock pkh).0 own, omega arith, rw here),
            IsOwned-shift output outputs index rest h.0,
          ),
          omega arith,
        )
    | inr other ↦ rw other (IsOwned-shift output outputs index rest h.0, omega arith)
  ]

  -- The index, a byte, wraps only behind the last output.
  wrap_index :
      (crypto : Crypto) (index : ℕ) (outputs : List Output)
      → index + suc (length outputs) ≤ 256
      → OnOk (AreOwned (index + 1) outputs) (owned_outputs crypto pkh (index + 1) outputs)
      → OnOk (AreOwned (index + 1) outputs) (owned_outputs crypto pkh ((index + 1) % 2 ^ 8) outputs)
  unfolding owned_outputs total
  wrap_index crypto index [] b h = (tt, omega arith)
  wrap_index crypto index (o ∷ os) b h =
      let small : (index + 1) % 2 ^ 8 ≡ index + 1 = omega arith in
      subst (λ i. OnOk (AreOwned (index + 1) (o ∷ os)) (owned_outputs crypto pkh i (o ∷ os)))
        (sym small) h

  owned_outputs-AreOwned :
      (crypto : Crypto) (index : ℕ) (outputs : List Output)
      → index + length outputs ≤ 256
      → OnOk (AreOwned index outputs) (owned_outputs crypto pkh index outputs)
  unfolding owned_outputs total
  owned_outputs-AreOwned crypto index [] b = (tt, omega arith)
  owned_outputs-AreOwned crypto index (output ∷ outputs) b =
      OnOk-bind _ (validate_output crypto output) _ (λ _ _.
        OnOk-bind _ (owned_outputs crypto pkh ((index + 1) % 2 ^ 8) outputs) _ (λ rest e.
          AreOwned-cons index output outputs rest (
            OnOk-elim (AreOwned (index + 1) outputs) e (
              wrap_index crypto index outputs (omega arith)
                (owned_outputs-AreOwned crypto (index + 1) outputs (omega arith))))))

-- What `consume_from_cell` finds in a cell of at most 256 outputs: each output has the lock of the
-- owner, and stands in the cell at its index; together they hold no more than the cell.
pub owned_outputs-IsOwned :
    (crypto : Crypto) (pkh : ℕ) (outputs : List Output) {owned : List (Output × ℕ)}
    → length outputs ≤ 256
    → owned_outputs crypto pkh 0 outputs ≡ ok owned
    → All (λ p. (p.0.lock ≡ pkh) × (get_elem? outputs p.1 ≡ some p.0)) owned
      × (total (outputs_of owned) ≤ total outputs)
owned_outputs-IsOwned crypto pkh outputs {owned} b e =
    let h =
      OnOk-elim (AreOwned pkh 0 outputs) e
        (owned_outputs-AreOwned pkh crypto 0 outputs (omega arith)) in
    (all_places owned h.0, h.1)
  where
    all_places :
        (l : List (Output × ℕ))
        → All (IsOwned pkh outputs 0) l
        → All (λ p. (p.0.lock ≡ pkh) × (get_elem? outputs p.1 ≡ some p.0)) l
    all_places [] h = tt
    all_places ((o, i) ∷ l) ((k, _, g), h) =
        let same : i - 0 ≡ i = omega arith in ((k, rw same at g), all_places l h)
