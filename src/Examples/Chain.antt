-- ===== src/Examples/Chain.antt =====
-- The actor of src/hail/hail.rs, with one block in its graph.
use zfx_subzero.Prelude.{◌≡◌, refl, subst, [], ◌∷◌, Bool, true, false, some, ok, err, arith, nat_eq}
use zfx_subzero.Prelude.HashSet.{contains}
use zfx_subzero.Prelude.HashMap
use zfx_subzero.Prelude.HashMap.{contains_key}
use zfx_subzero.Prelude.Checks.{all_ok}
use zfx_subzero.Graph.{vacant_entry}
use zfx_subzero.Graph.Dag.Invariant.{IsWellFormed}
use zfx_subzero.Graph.Dag.Search.Walk.{Reach}
use zfx_subzero.Graph.Dag.Search.DepthFirst.{IsWellFormed-IsClosed}
use zfx_subzero.Graph.Dag.Search.Ancestry.{Reach-contains_key}
use zfx_subzero.Hail.{BlockHash, Vertex, graph, vertex_eq, vertex_beq, vertex_beq_iff}
use zfx_subzero.Hail.ConflictMap.{
  insert_block, is_accepted_block, is_singleton, is_singleton_set, get_confidence,
}
use zfx_subzero.Hail.Actor.{
  Env, HailBlock, Hail, is_known_block, on_receive_block, is_accepted, next_accepted_vertex,
}
use zfx_subzero.Hail.Actor.Orphans.{on_receive_block-orphan}
use zfx_subzero.Hail.Actor.Acceptance.{Finds, next_accepted_vertex-Finds}
use zfx_subzero.Examples.Mempool.{map_db}

abbrev env : Env
env = record { hash_block = λ b. b.vrf_out; sled = map_db {V = HailBlock} }

abbrev root : Vertex
root = record { height = 0; block_hash = 7 }

-- One block, with as many votes as a block without rivals needs.
abbrev chain : Hail env
chain = record {
  known_blocks = [];
  conflict_map = (0, record { conflicts = 7 ∷ []; pref = 7; last = 7; cnt = 11 }) ∷ [];
  accepted_vertices = [];
  dag = record { g = (root, []) ∷ []; inv = (root, []) ∷ []; chits = (root, 1) ∷ [] };
  fresh_blocks = [];
}

chain-IsWellFormed : IsWellFormed chain.dag
unfolding HashMap.get contains
chain-IsWellFormed = record {
  same_keys = λ u. refl;
  mirrored = λ u v. ground arith;
  has_chit = λ u h. ground arith;
}

root_present : contains_key root chain.dag.g ≡ true
unfolding HashMap.get vertex_beq
root_present = refl

only_root : (u : Vertex) → contains_key u chain.dag.g ≡ true → root ≡ u
unfolding HashMap.get
only_root u h = ground (arith, vertex_beq_iff root u)

root_accepted : is_accepted chain root ≡ ok true
unfolding is_accepted all_ok is_accepted_block is_singleton is_singleton_set get_confidence
    HashMap.get vertex_beq
root_accepted = refl

answered : (u : Vertex) → Reach chain.dag.g root u → (b : Bool) × (is_accepted chain u ≡ ok b)
answered u r =
    subst (λ x. (b : Bool) × (is_accepted chain x ≡ ok b))
      (only_root u
        (Reach-contains_key (IsWellFormed-IsClosed chain.dag chain-IsWellFormed) root_present r))
      (true, root_accepted)

next_accepted_vertex-Finds_example :
    Finds chain (Reach chain.dag.g root) (next_accepted_vertex root chain)
next_accepted_vertex-Finds_example =
    next_accepted_vertex-Finds root chain chain-IsWellFormed root_present answered

abbrev missing_parent : Vertex
missing_parent = record { height = 1; block_hash = 5 }

abbrev orphan : HailBlock
orphan = record {
  parent = some missing_parent;
  block = record { predecessor = some 5; height = 2; vrf_out = 9; cells = [] };
}

orphan_unknown : is_known_block chain 9 ≡ false
unfolding HashMap.get
orphan_unknown = refl

orphan_fresh : contains_key (record { height = 2; block_hash = 9 }) chain.dag.g ≡ false
unfolding HashMap.get vertex_beq
orphan_fresh = refl

parent_absent : contains_key missing_parent chain.dag.inv ≡ false
unfolding HashMap.get vertex_beq
parent_absent = refl

other_parent : vertex_beq (record { height = 2; block_hash = 9 }) missing_parent ≡ false
unfolding vertex_beq
other_parent = refl

on_receive_block-orphan_example :
    let (s', r) = on_receive_block orphan chain in
    (r ≡ err (graph vacant_entry))
    × ((h : BlockHash) → is_known_block s' h ≡ is_known_block chain h)
    × (s'.dag.g ≡ chain.dag.g)
    × (s'.conflict_map ≡ (insert_block (λ b. b.vrf_out) orphan.block chain.conflict_map).0)
on_receive_block-orphan_example =
    on_receive_block-orphan orphan missing_parent chain orphan_unknown refl orphan_fresh
      parent_absent other_parent
