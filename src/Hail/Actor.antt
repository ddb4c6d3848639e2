-- ===== src/Hail/Actor.antt =====
-- src/hail/hail.rs: the state of the actor `Hail`, how blocks enter, and which are accepted. The hash
-- of a block is a parameter; the committee is left out. `fresh_blocks` holds the blocks that the actor
-- sent itself as `FreshBlock`, the first first.
pub mod Orphans
pub mod Acceptance
use zfx_subzero.Prelude.{
  ℕ, suc, ◌-◌, ◌≡◌, Bool, true, false, not, ◌&&◌, Option, none, some, List, [], ◌∷◌, ◌++◌,
  if◌then◌else◌, ◌+◌, ◌%◌, ◌^◌, length, eqb, ltb, Result, ok, err, panic, map_err, nat_eq,
}
use zfx_subzero.Prelude.HashSet
use zfx_subzero.Prelude.HashSet.{HashSet}
use zfx_subzero.Prelude.HashMap
use zfx_subzero.Prelude.HashMap.{HashMap, contains_key, is_some}
use zfx_subzero.Prelude.Action.{Action, pure, modify, lift, gets, and_then, ◌>>=◌, ◌>>◌}
use zfx_subzero.Prelude.Checks.{all_ok}
use zfx_subzero.Graph
use zfx_subzero.Graph.Dag.{Dag, insert_vx, leaves}
use zfx_subzero.Graph.Dag.Search.{dfs, conviction}
use zfx_subzero.Storage.{Sled}
use zfx_subzero.Hail.{
  BlockHash, BlockHeight, Block, Vertex, Error, graph, invalid_block, invalid_block_hash, empty_dag,
  vertex_eq,
}
use zfx_subzero.Hail.ConflictMap.{
  ConflictMap, insert_block, is_preferred, is_accepted_block, get_preferred, update_conflict_set,
}

unfoldable pub lowest_from : Vertex → List Vertex → Vertex
lowest_from h [] = h
lowest_from h (hi ∷ rest) = lowest_from (if ltb hi.block_hash h.block_hash then hi else h) rest

-- `vxs[0]` panics if there is none.
unfoldable pub lowest_vertex : List Vertex → Result Error Vertex
lowest_vertex [] = panic
lowest_vertex (vx ∷ rest) = ok (lowest_from vx rest)

-- src/hail/block.rs
pub record HailBlock : Type 0 where
  pub parent : Option Vertex
  pub block : Block

pub record Env : Type 1 where
  pub hash_block : Block → BlockHash
  pub sled : Sled HailBlock

pub record Hail (env : Env) : Type 0 where
  pub known_blocks : env.sled.Db
  pub conflict_map : ConflictMap
  pub accepted_vertices : HashSet Vertex
  pub dag : Dag Vertex
  pub fresh_blocks : List HailBlock

module _ (env : Env) where
  -- `HailBlock::vertex`
  abbrev pub vertex : HailBlock → Vertex
  vertex b = record { height = b.block.height; block_hash = env.hash_block b.block }

-- The answer for a vertex, from that for its parents and that for its block.
abbrev pub judge : Result Error Bool → Result Error Bool → Result Error Bool
judge (ok true) own = own
judge (ok false) own = ok false
judge (err e) own = err e
judge panic own = panic

module _ {env : Env} where
  abbrev pub on_dag : {A : Type 0} → Action (Dag Vertex) Graph.Error A → Action (Hail env) Error A
  on_dag act s = (record s { dag = (act s.dag).0 }, map_err graph (act s.dag).1)

  -- `conflict_map.insert_block`, then `dag.insert_vx`.
  unfoldable pub enter : HailBlock → List Vertex → Action (Hail env) Error (Unit {0})
  enter b parents = do
    modify (λ s. record s { conflict_map = (insert_block env.hash_block b.block s.conflict_map).0 })
    on_dag (insert_vx (vertex env b) parents)

  -- A block without a parent has to be at height 0.
  unfoldable pub insert_root : HailBlock → Action (Hail env) Error (Unit {0})
  insert_root b s = if eqb b.block.height 0 then enter b [] s else (s, err (invalid_block b.block))

  unfoldable pub insert : HailBlock → Action (Hail env) Error (Unit {0})
  insert b s =
      let fresh : Hail env × Result Error (Unit {0}) = elim b.parent [
        | some parent ↦ enter b (parent ∷ []) s
        | none ↦ insert_root b s
      ] in
      if contains_key (vertex env b) s.dag.g then (s, ok tt) else fresh

  abbrev pub is_known_block : Hail env → BlockHash → Bool
  is_known_block s h = is_some (env.sled.read s.known_blocks h)

  unfoldable pub on_receive_block : HailBlock → Action (Hail env) Error Bool
  on_receive_block b s =
      let h = env.hash_block b.block in
      if is_known_block s h
      then (s, ok false)
      else (do
        insert b
        modify (λ t. record t { known_blocks = env.sled.write h b t.known_blocks })
        pure true)
          s

  unfoldable pub is_strongly_preferred : Hail env → Vertex → Result Error Bool
  is_strongly_preferred s vx =
      all_ok (λ ancestor. is_preferred s.conflict_map ancestor.height ancestor.block_hash)
        (dfs s.dag vx)

  -- The test of the parents, and then of the block itself.
  unfoldable pub is_accepted : Hail env → Vertex → Result Error Bool
  is_accepted s initial_vertex = elim (HashMap.get initial_vertex s.dag.g) [
    | some parents ↦
        judge (all_ok (is_accepted_block s.conflict_map) parents)
          (is_accepted_block s.conflict_map initial_vertex)
    | none ↦ err (invalid_block_hash initial_vertex.block_hash)
  ]

  -- The first vertex of a list that is accepted.
  unfoldable pub first_accepted : Hail env → List Vertex → Result Error (Option Vertex)
  first_accepted s [] = ok none
  first_accepted s (vx ∷ rest) = elim (is_accepted s vx) [
    | ok accepts ↦ if accepts then ok (some vx) else first_accepted s rest
    | err e ↦ err e
    | panic ↦ panic
  ]

  unfoldable pub frontier_of : Hail env → List Vertex → Result Error (List Vertex)
  frontier_of s [] = ok []
  frontier_of s (leaf ∷ rest) = elim (first_accepted s (dfs s.dag leaf)) [
    | ok found ↦ elim (frontier_of s rest) [
      | ok later ↦ ok (elim found [ none ↦ later | some vx ↦ vx ∷ later ])
      | err e ↦ err e
      | panic ↦ panic
    ]
    | err e ↦ err e
    | panic ↦ panic
  ]

  -- An empty graph has no leaves.
  unfoldable pub get_accepted_frontier : Hail env → Result Error (List Vertex)
  get_accepted_frontier s = frontier_of s (leaves s.dag)

  unfoldable pub accept_first : List Vertex → Action (Hail env) Error (Option Vertex)
  accept_first [] = pure none
  accept_first (vx ∷ rest) = λ s.
      let accept = record s { accepted_vertices = HashSet.insert vx s.accepted_vertices } in
      let looked =
        and_then (is_accepted s vx)
          (λ accepts. if accepts then (λ t. (accept, ok (some vx))) else accept_first rest) s in
      if HashSet.contains s.accepted_vertices vx then accept_first rest s else looked

  unfoldable pub next_accepted_vertex : Vertex → Action (Hail env) Error (Option Vertex)
  next_accepted_vertex vertex s = accept_first (dfs s.dag vertex) s

  -- The preferred vertices at a height among those listed.
  unfoldable pub preferred_at : Hail env → BlockHeight → List Vertex → Result Error (List Vertex)
  preferred_at s height [] = ok []
  preferred_at s height (vx ∷ rest) = elim (is_strongly_preferred s vx) [
    | ok preferred ↦ elim (preferred_at s height rest) [
      | ok later ↦ ok (if preferred && eqb vx.height height then vx ∷ later else later)
      | err e ↦ err e
      | panic ↦ panic
    ]
    | err e ↦ err e
    | panic ↦ panic
  ]

  unfoldable pub above_leaves : Hail env → List Vertex → List Vertex
  above_leaves s [] = []
  above_leaves s (leaf ∷ rest) = dfs s.dag leaf ++ above_leaves s rest

  -- `h - 1` in a `u64`.
  unfoldable pub select_parent : Hail env → BlockHeight → Result Error Vertex
  select_parent s h =
      let chosen : Result Error Vertex =
        elim (preferred_at s ((h + (2 ^ 64 - 1)) % 2 ^ 64) (above_leaves s (leaves s.dag))) [
          | ok vxs ↦ lowest_vertex vxs
          | err e ↦ err e
          | panic ↦ panic
        ] in
      if eqb (length s.dag.g) 0 then err empty_dag else chosen

  unfoldable pub update_preference : Vertex → Action (Hail env) Error (Unit {0})
  update_preference vx = do
    pref ← (λ s. (s, get_preferred s.conflict_map vx.height))
    d1 ← (λ s. (s, map_err graph (conviction s.dag vx)))
    d2 ← (λ s.
        (s, map_err graph (conviction s.dag (record { height = vx.height; block_hash = pref }))))
    changed ← (λ s. (s, update_conflict_set vx.height vx.block_hash d1 d2 s.conflict_map))
    modify (λ s. record s { conflict_map = changed })

  unfoldable pub update_all : List Vertex → Action (Hail env) Error (Unit {0})
  update_all [] = pure tt
  update_all (vx ∷ rest) = update_preference vx >> update_all rest

  unfoldable pub update_ancestral_preference : Vertex → Action (Hail env) Error (Unit {0})
  update_ancestral_preference root_vx s = update_all (dfs s.dag root_vx) s

  abbrev notify_fresh : HailBlock → Hail env → Hail env
  notify_fresh b s = record s { fresh_blocks = s.fresh_blocks ++ b ∷ [] }

  -- The handler of `QueryBlock`: the reply is the outcome; an error counts as no.
  unfoldable pub query_block : HailBlock → Action (Hail env) Error Bool
  query_block b s =
      let (s', r) = on_receive_block b s in
      let s1 : Hail env = elim r [
        | ok is_new ↦ if is_new then notify_fresh b s' else s'
        | _ ↦ s'
      ] in
      elim r [
        | panic ↦ (s1, panic)
        | _ ↦ (
          s1,
          elim (is_strongly_preferred s1 (vertex env b)) [
            | ok outcome ↦ ok outcome
            | err e ↦ ok false
            | panic ↦ panic
          ],
        )
      ]

  -- The handler of `GenerateBlock`: the reply is the hash of a block that is new.
  unfoldable pub generate_block : Block → Action (Hail env) Error (Option BlockHash)
  generate_block block s = elim (select_parent s block.height) [
    | ok parent ↦
        let b : HailBlock = record { parent = some parent; block = block } in
        let (s', r) = on_receive_block b s in
        elim r [
          | ok is_new ↦
              if is_new
              then (notify_fresh b s', ok (some (env.hash_block block)))
              else (s', ok none)
          | err e ↦ (s', ok none)
          | panic ↦ (s', panic)
        ]
    | err e ↦ (s, panic)
    | panic ↦ (s, panic)
  ]
