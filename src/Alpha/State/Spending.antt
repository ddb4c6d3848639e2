-- ===== src/Alpha/State/Spending.antt =====
-- src/alpha/state.rs: which outputs count as unspent before and after a cell is applied.
use zfx_subzero.Prelude.{
  ℕ, ◌+◌, ◌%◌, ◌^◌, eqb_iff, ◌≡◌, refl, Bool, true, false, ◌||◌, ◌&&◌, leb, ltb, eqb, List, [], ◌∷◌,
  if◌then◌else◌, arith, Bool-cases, or-true, inl, inr, Result, OnOk, OnOk-bind, OnOk-elim,
  OnOk-imply, ap, ◌>>=◌, nat_eq, ◌∙◌,
}
use zfx_subzero.Prelude.HashSet
use zfx_subzero.Prelude.HashMap.{is_some}
use zfx_subzero.Cell.Types.{Capacity, CellHash, CellId, Output, Cell, Crypto}
use zfx_subzero.Cell.Ids.{CellIds, from_inputs, from_outputs, intersect, intersects_with}
use zfx_subzero.Cell.Maps.{IdsMap, get, insert, same_ids, same_ids-contains}
use zfx_subzero.Alpha.State.{
  State, Consumed, Produced, nothing, consume_outputs, consume_live, store, balance, produce,
  verify_outputs, remove_intersection, apply_cell, settle,
}

-- The id stands in a key of the live cells.
unfoldable pub unspent : CellId → IdsMap Cell → Bool
unspent id [] = false
unspent id ((ids, _) ∷ live) = HashSet.contains ids id || unspent id live

unspent-insert :
    (id : CellId) (k : CellIds) (c : Cell) (live : IdsMap Cell)
    → is_some (get k live) ≡ false
    → unspent id (insert k c live) ≡ (unspent id live || HashSet.contains k id)
unfolding unspent get insert
unspent-insert id k c [] new = ground arith
unspent-insert id k c ((j, w) ∷ live) new = ground (arith, unspent-insert id k c live)

module _ (crypto : Crypto) (id : CellId) where
  consume_outputs-within :
      (intersection : CellIds) (cell_hash : CellHash) (i : ℕ) (os : List Output) (c : Consumed)
      → HashSet.contains (consume_outputs crypto intersection cell_hash i os c).ids id ≡ true
      → (HashSet.contains c.ids id || HashSet.contains intersection id) ≡ true
  unfolding consume_outputs
  consume_outputs-within intersection cell_hash i [] c h = ground arith
  consume_outputs-within intersection cell_hash i (o ∷ os) c h =
      let here = crypto.hash_index cell_hash (i % 2 ^ 8) in
      elim (Bool-cases (HashSet.contains intersection here)) [
        | inr other ↦ consume_outputs-within intersection cell_hash (i + 1) os c (ground arith)
        | inl taken ↦
            let rest =
              consume_outputs-within intersection cell_hash (i + 1) os _ (simp taken at h) in
            ground (arith, HashSet.contains-insert here c.ids id, eqb_iff here id)
      ]

  consume_live-within :
      (input_ids : CellIds) (live : IdsMap Cell) (c : Consumed)
      → HashSet.contains (consume_live crypto input_ids live c).ids id ≡ true
      → (HashSet.contains c.ids id || unspent id live) ≡ true
  unfolding consume_live unspent intersect
  consume_live-within input_ids [] c h = ground arith
  consume_live-within input_ids ((live_ids, cell) ∷ live) c h =
      elim (Bool-cases (intersects_with input_ids live_ids)) [
        | inr apart ↦ let rest = consume_live-within input_ids live c (ground arith) in ground arith
        | inl touching ↦
            let rest = consume_live-within input_ids live _ (simp touching at h) in
            elim (or-true _ _ rest) [
              | inr later ↦ ground arith
              | inl taken ↦
                  let first =
                    consume_outputs-within (intersect input_ids live_ids) (crypto.hash_cell cell) 0
                      cell.outputs c taken in
                  ground (arith, HashSet.contains-intersection input_ids live_ids id)
            ]
      ]

-- A cell that is applied, from the state `s` to the state `t`.
pub record Applied (crypto : Crypto) (c : Cell) (s t : State) : Type 0 where
  pub inputs :
      (id : CellId)
      → HashSet.contains (from_inputs crypto c.inputs) id ≡ true
      → unspent id s.live_cells ≡ true
  pub live :
      (id : CellId)
      → unspent id t.live_cells ≡ (
          unspent id s.live_cells
          || HashSet.contains (from_outputs crypto (crypto.hash_cell c) c.outputs) id)
  pub height : t.height ≡ s.height

OnOk-if {ℓ} :
    {A : Type 0} {E : Type 0} (P : A → Type ℓ) (b : Bool) (m n : Result E A)
    → OnOk P m
    → OnOk P n
    → OnOk P (if b then m else n)
OnOk-if P true m n h k = h
OnOk-if P false m n h k = k

store-unspent :
    (crypto : Crypto) (c : Cell) (s : State)
    → OnOk
        (λ t.
          ((id : CellId)
            → unspent id t.live_cells ≡ (
                unspent id s.live_cells
                || HashSet.contains (from_outputs crypto (crypto.hash_cell c) c.outputs) id))
          × (t.height ≡ s.height))
        (store crypto c s)
unfolding store
store-unspent crypto c s =
    let ids = from_outputs crypto (crypto.hash_cell c) c.outputs in
    elim (Bool-cases (is_some (get ids s.live_cells))) [
      | inl present ↦ rw present tt
      | inr new ↦ rw new (λ id. unspent-insert id ids c s.live_cells new, refl)
    ]

balance-live_cells :
    (consumed : Capacity) (p : Produced) (s : State)
    → OnOk (λ t. (t.live_cells ≡ s.live_cells) × (t.height ≡ s.height)) (balance consumed p s)
unfolding balance
balance-live_cells consumed p s =
    OnOk-if _
      (leb ((p.capacity + p.staking_capacity) % 2 ^ 64) consumed
        && ltb 0 consumed
        && eqb p.coinbase_capacity 0)
      _ _ (refl, refl)
      (OnOk-if _
        (eqb s.height 0
          && ltb 0 p.coinbase_capacity
          && eqb p.capacity 0
          && eqb p.staking_capacity 0)
        _ _ (refl, refl) tt)

-- The live cells of the state `t` are those of `s` and the cell.
abbrev Adds : Crypto → Cell → State → State → Type 0
Adds crypto c s t =
    ((id : CellId)
      → unspent id t.live_cells ≡ (
          unspent id s.live_cells
          || HashSet.contains (from_outputs crypto (crypto.hash_cell c) c.outputs) id))
    × (t.height ≡ s.height)

settle-Adds :
    (crypto : Crypto) (c : Cell) (consumed : Capacity) (s : State)
    → OnOk (Adds crypto c s) (settle crypto c consumed s)
unfolding settle
settle-Adds crypto c consumed s =
    let start : Produced = record {
      coinbase_capacity = 0;
      staking_capacity = 0;
      capacity = 0;
      validators = s.validators;
    } in
    OnOk-bind (Adds crypto c s) (produce crypto s.height c.outputs start)
      (λ p. store crypto c (record s { validators = p.validators }) >>= λ stored.
        balance consumed p stored)
      (λ p _.
        let before = record s { validators = p.validators } in
        OnOk-bind (Adds crypto c s) (store crypto c before) (balance consumed p) (λ stored eq.
          let (live, height) = OnOk-elim (Adds crypto c s) eq (store-unspent crypto c before) in
          OnOk-imply (balance consumed p stored)
            (λ t (cells, same_height).
              (λ id. ap (unspent id) cells ∙ live id, same_height ∙ height))
            (balance-live_cells consumed p stored)))

-- If a cell is applied, every output that it spends is unspent before. Afterwards its own outputs
-- are unspent, and all that were unspent before still are, those that it spends among them.
pub apply_cell-Applied :
    (crypto : Crypto) (c : Cell) (s : State) → OnOk (Applied crypto c s) (apply_cell crypto c s)
unfolding apply_cell HashSet.contains
apply_cell-Applied crypto c s =
    let input_ids = from_inputs crypto c.inputs in
    let consumed = consume_live crypto input_ids s.live_cells nothing in
    let end = settle crypto c consumed.capacity s in
    elim (Bool-cases (same_ids consumed.ids input_ids)) [
      | inr differ ↦ rw differ tt
      | inl same ↦ rw same (
          OnOk-bind (Applied crypto c s) (verify_outputs c.outputs consumed.outputs)
            (λ _. remove_intersection consumed.ids s >>= λ _. end)
            (λ _ _.
              OnOk-bind (Applied crypto c s) (remove_intersection consumed.ids s) (λ _. end)
                (λ _ _.
                  OnOk-imply end
                    (λ t (live, height). record {
                      inputs = λ id h.
                          consume_live-within crypto id input_ids s.live_cells nothing
                            (same_ids-contains consumed.ids input_ids id same h);
                      live = live;
                      height = height;
                    })
                    (settle-Adds crypto c consumed.capacity s))))
    ]
