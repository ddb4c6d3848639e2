-- ===== src/Alpha/State.antt =====
-- src/alpha/state.rs: the state of the `alpha` chain, and the effect of a cell on it; `Output::verify`
-- of src/cell/output.rs. The order in which the cells of a block are applied comes from
-- src/graph/dependency_graph.rs. `decode_stake` of Crypto reads the id of the node.
pub mod Order
pub mod Spending
use zfx_subzero.Prelude.{
  ℕ, ◌+◌, ◌-◌, ◌%◌, ◌^◌, Bool, true, false, not, ◌&&◌, none, List, [], ◌∷◌, ◌++◌, if◌then◌else◌,
  eqb, leb, ltb, Result, ok, err, map_err, ◌>>=◌, ◌>>◌, nat_eq,
}
use zfx_subzero.Prelude.HashSet
use zfx_subzero.Prelude.HashMap.{is_some}
use zfx_subzero.Cell
use zfx_subzero.Cell.Types.{
  Capacity, CellHash, Output, Cell, Crypto, CellType, coinbase, transfer, stake,
}
use zfx_subzero.Cell.Ids.{
  CellIds, from_inputs, from_outputs, intersects_with, intersect, left_difference,
}
use zfx_subzero.Cell.Maps.{IdsMap, same_ids, get, insert}
use zfx_subzero.Graph.DependencyGraph
use zfx_subzero.Graph.DependencyGraph.{DependencyGraph, empty_graph, topological_cells}
use zfx_subzero.Alpha.{
  Error, cell, graph, invalid_coinbase, undefined_cell_ids, existing_cell_ids, exceeds_capacity,
}

pub record State : Type 0 where
  pub height : ℕ
  pub total_spending_capacity : Capacity
  pub total_staking_capacity : Capacity
  pub validators : List (ℕ × Capacity)
  pub live_cells : IdsMap Cell

-- `State::new`
abbrev pub new_state : State
new_state = record {
  height = 0;
  total_spending_capacity = 0;
  total_staking_capacity = 0;
  validators = [];
  live_cells = [];
}

abbrev same_type : CellType → CellType → Bool
same_type coinbase coinbase = true
same_type transfer transfer = true
same_type stake stake = true
same_type _ _ = false

-- `Output::verify`
unfoldable pub verify : Output → List Output → Result Cell.Error (Unit {0})
verify output [] = ok tt
verify output (o ∷ outputs) = elim output.cell_type [
  | coinbase ↦ err Cell.invalid_coinbase
  | transfer ↦ ok tt
  | stake ↦ err Cell.invalid_stake
]

-- The output is verified again after each consumed output, with those of its type so far.
unfoldable pub verify_output : Output → List Output → List Output → Result Error (Unit {0})
verify_output output arguments [] = ok tt
verify_output output arguments (consumed ∷ rest) =
    let arguments : List Output =
      if same_type output.cell_type consumed.cell_type
      then arguments ++ consumed ∷ []
      else arguments in
    let next = verify_output output arguments rest in map_err cell (verify output arguments) >> next

unfoldable pub verify_outputs : List Output → List Output → Result Error (Unit {0})
verify_outputs [] consumed = ok tt
verify_outputs (output ∷ outputs) consumed =
    verify_output output [] consumed >> verify_outputs outputs consumed

-- What a cell consumes.
pub record Consumed : Type 0 where
  pub ids : CellIds
  pub outputs : List Output
  pub capacity : Capacity

abbrev pub nothing : Consumed
nothing = record { ids = []; outputs = []; capacity = 0 }

module _ (crypto : Crypto) where
  -- The outputs of a live cell, from the position on.
  unfoldable pub consume_outputs : CellIds → CellHash → ℕ → List Output → Consumed → Consumed
  consume_outputs intersection cell_hash i [] c = c
  consume_outputs intersection cell_hash i (o ∷ os) c =
      let id = crypto.hash_index cell_hash (i % 2 ^ 8) in
      let taken : Consumed = record {
        ids = HashSet.insert id c.ids;
        outputs = c.outputs ++ o ∷ [];
        capacity = (c.capacity + o.capacity) % 2 ^ 64;
      } in
      consume_outputs intersection cell_hash (i + 1) os
        (if HashSet.contains intersection id then taken else c)

  unfoldable pub consume_live : CellIds → IdsMap Cell → Consumed → Consumed
  consume_live input_ids [] c = c
  consume_live input_ids ((live_ids, live) ∷ m) c =
      let taken =
        consume_outputs (intersect input_ids live_ids) (crypto.hash_cell live) 0 live.outputs c in
      consume_live input_ids m (if intersects_with input_ids live_ids then taken else c)

-- `State::remove_intersection`; the map that it returns is not stored anywhere.
unfoldable pub remove_live : CellIds → IdsMap Cell → IdsMap Cell → Result Error (IdsMap Cell)
remove_live cell_ids [] kept = ok kept
remove_live cell_ids ((live_ids, live) ∷ m) kept =
    let key : CellIds =
      if intersects_with cell_ids live_ids
      then left_difference live_ids (intersect cell_ids live_ids)
      else live_ids in
    let next = remove_live cell_ids m (insert key live kept) in
    if is_some (get key kept) then err existing_cell_ids else next

unfoldable pub remove_intersection : CellIds → State → Result Error (IdsMap Cell)
unfolding remove_live
remove_intersection cell_ids s = remove_live cell_ids s.live_cells []

-- What the outputs of a cell add.
pub record Produced : Type 0 where
  pub coinbase_capacity : Capacity
  pub staking_capacity : Capacity
  pub capacity : Capacity
  pub validators : List (ℕ × Capacity)

module _ (crypto : Crypto) where
  unfoldable pub produce_output : ℕ → Output → Produced → Result Error Produced
  produce_output height o p = elim o.cell_type [
    | coinbase ↦
        if eqb height 0
        then ok (record p { coinbase_capacity = (p.coinbase_capacity + o.capacity) % 2 ^ 64 })
        else err invalid_coinbase
    | stake ↦ crypto.decode_stake o.state >>= λ node_id. ok (record p {
      staking_capacity = (p.staking_capacity + o.capacity) % 2 ^ 64;
      validators = p.validators ++ (node_id, o.capacity) ∷ [];
    })
    | transfer ↦ ok (record p { capacity = (p.capacity + o.capacity) % 2 ^ 64 })
  ]

  unfoldable pub produce : ℕ → List Output → Produced → Result Error Produced
  produce height [] p = ok p
  produce height (o ∷ os) p = produce_output height o p >>= λ q. produce height os q

-- A cell spends no less than it makes and stakes, or is a coinbase at height 0.
unfoldable pub balance : Capacity → Produced → State → Result Error State
balance consumed p s =
    if leb ((p.capacity + p.staking_capacity) % 2 ^ 64) consumed
      && ltb 0 consumed
      && eqb p.coinbase_capacity 0
    then ok (record s {
      total_spending_capacity =
          ((s.total_spending_capacity + 2 ^ 64 - consumed) % 2 ^ 64 + p.capacity) % 2 ^ 64;
      total_staking_capacity = (s.total_staking_capacity + p.staking_capacity) % 2 ^ 64;
    })
    else if eqb s.height 0
        && ltb 0 p.coinbase_capacity
        && eqb p.capacity 0
        && eqb p.staking_capacity 0
    then ok (record s {
      total_spending_capacity = (s.total_spending_capacity + p.coinbase_capacity) % 2 ^ 64;
    })
    else err exceeds_capacity

module _ (crypto : Crypto) where
  -- The cell is stored under the ids of its outputs, which must not be a key of the map.
  unfoldable pub store : Cell → State → Result Error State
  store c s =
      let produced_ids = from_outputs crypto (crypto.hash_cell c) c.outputs in
      if is_some (get produced_ids s.live_cells)
      then err existing_cell_ids
      else ok (record s { live_cells = insert produced_ids c s.live_cells })

  -- The end of a round of `State::apply`: what the cell makes is counted and stored.
  unfoldable pub settle : Cell → Capacity → State → Result Error State
  settle c consumed s =
      let start : Produced = record {
        coinbase_capacity = 0;
        staking_capacity = 0;
        capacity = 0;
        validators = s.validators;
      } in
      produce crypto s.height c.outputs start >>= λ p.
      store c (record s { validators = p.validators }) >>= λ stored. balance consumed p stored

  -- One round of the loop of `State::apply`.
  unfoldable pub apply_cell : Cell → State → Result Error State
  apply_cell c s =
      let input_ids = from_inputs crypto c.inputs in
      let consumed = consume_live crypto input_ids s.live_cells nothing in
      if not (same_ids consumed.ids input_ids)
      then err undefined_cell_ids
      else verify_outputs c.outputs consumed.outputs >>= λ _.
          remove_intersection consumed.ids s >>= λ _. settle c consumed.capacity s

  unfoldable pub apply_cells : List Cell → State → Result Error State
  apply_cells [] s = ok s
  apply_cells (c ∷ cells) s = apply_cell c s >>= λ next. apply_cells cells next

  -- The loop over the cells of a block that builds their dependency graph.
  unfoldable pub depend : List Cell → DependencyGraph → Result Error DependencyGraph
  depend [] g = ok g
  depend (c ∷ cells) g =
      map_err graph (DependencyGraph.insert crypto c g) >>= λ next. depend cells next

  -- `State::apply`
  unfoldable pub apply : List Cell → State → Result Error State
  apply cells s = depend cells empty_graph >>= λ dg.
      map_err graph (topological_cells crypto cells dg) >>= λ ordered. apply_cells ordered s
