-- ===== src/Hail/ConflictMap.antt =====
-- src/hail/conflict_set.rs and src/hail/conflict_map.rs: the blocks that conflict at a height, with
-- the one preferred and the confidence in it, a `u8`.
pub mod Lowest
pub mod Finality
use zfx_subzero.Prelude.{
  ℕ, ◌+◌, ◌%◌, ◌^◌, Bool, true, false, ◌&&◌, Option, none, some, List, [], ◌∷◌, eqb, ltb, leb,
  length, Result, ok, err, ◌>>=◌, if◌then◌else◌, not, nat_eq,
}
use zfx_subzero.Prelude.HashSet
use zfx_subzero.Prelude.HashSet.{HashSet}
use zfx_subzero.Prelude.HashMap
use zfx_subzero.Prelude.HashMap.{HashMap}
use zfx_subzero.Hail.{
  BlockHash, BlockHeight, Block, Vertex, Error, invalid_block_height, beta1, beta2,
}

pub record ConflictSet : Type 0 where
  pub conflicts : HashSet BlockHash
  pub pref : BlockHash
  pub last : BlockHash
  pub cnt : ℕ

abbrev pub ConflictMap : Type 0
ConflictMap = HashMap BlockHeight ConflictSet

unfoldable pub new_set : BlockHash → ConflictSet
new_set t = record { conflicts = t ∷ []; pref = t; last = t; cnt = 0 }

-- The loop that keeps the lowest hash.
unfoldable pub lowest_from : BlockHash → List BlockHash → BlockHash
lowest_from h [] = h
lowest_from h (hi ∷ hashes) = lowest_from (if ltb hi h then hi else h) hashes

unfoldable pub lowest_hash : HashSet BlockHash → Option BlockHash
unfolding lowest_from
lowest_hash [] = none
lowest_hash (h ∷ hashes) = some (lowest_from h hashes)

unfoldable pub is_lowest_hash : HashSet BlockHash → BlockHash → Bool
unfolding lowest_hash
is_lowest_hash conflicts hash = elim (lowest_hash conflicts) [ some h ↦ eqb h hash | none ↦ true ]

unfoldable pub is_singleton_set : ConflictSet → Bool
is_singleton_set cs = eqb (length cs.conflicts) 1

-- A look at the conflict set of a height.
abbrev at : {A : Type 0} → ConflictMap → BlockHeight → (ConflictSet → A) → Result Error A
at m height f = elim (HashMap.get height m) [
  | some cs ↦ ok (f cs)
  | none ↦ err (invalid_block_height height)
]

unfoldable pub is_preferred : ConflictMap → BlockHeight → BlockHash → Result Error Bool
is_preferred m height block_hash = at m height (λ cs. eqb cs.pref block_hash)

unfoldable pub is_singleton : ConflictMap → BlockHeight → Result Error Bool
is_singleton m height = at m height is_singleton_set

unfoldable pub get_preferred : ConflictMap → BlockHeight → Result Error BlockHash
get_preferred m height = at m height (λ cs. cs.pref)

unfoldable pub get_confidence : ConflictMap → Vertex → Result Error ℕ
get_confidence m vx = at m vx.height (λ cs. if eqb cs.pref vx.block_hash then cs.cnt else 0)

-- A conflict set that takes a block in.
unfoldable pub add_block : BlockHash → ConflictSet → ConflictSet
add_block block_hash cs =
    let grown = record cs { conflicts = HashSet.insert block_hash cs.conflicts } in
    if ltb cs.cnt beta1 && is_lowest_hash grown.conflicts block_hash
    then record grown { pref = block_hash; cnt = 0 }
    else grown

-- `hash_block` is `Block::hash`, a hash of the encoded block.
unfoldable pub insert_block : (Block → BlockHash) → Block → ConflictMap → ConflictMap × ConflictSet
insert_block hash_block block m = elim (HashMap.get block.height m) [
  | some cs ↦ let cs' = add_block (hash_block block) cs in (HashMap.insert block.height cs' m, cs')
  | none ↦ let cs' = new_set (hash_block block) in (HashMap.insert block.height cs' m, cs')
]

unfoldable pub updated : BlockHash → ℕ → ℕ → ConflictSet → ConflictSet
updated block_hash d1 d2 cs =
    let preferred = record cs { pref = if ltb d2 d1 then block_hash else cs.pref } in
    if not (eqb block_hash cs.last)
    then record preferred { last = block_hash }
    else record preferred { cnt = (cs.cnt + 1) % 2 ^ 8 }

unfoldable pub update_conflict_set :
    BlockHeight → BlockHash → ℕ → ℕ → ConflictMap → Result Error ConflictMap
update_conflict_set height block_hash d1 d2 m = elim (HashMap.get height m) [
  | some cs ↦ ok (HashMap.insert height (updated block_hash d1 d2 cs) m)
  | none ↦ err (invalid_block_height height)
]

-- `Hail::is_accepted_block`, src/hail/hail.rs
unfoldable pub is_accepted_block : ConflictMap → Vertex → Result Error Bool
is_accepted_block m vx = do
  single ← is_singleton m vx.height
  early ← if single then (get_confidence m vx >>= λ c. ok (leb beta1 c)) else ok false
  let late = get_confidence m vx >>= λ c. ok (leb beta2 c)
  if early then ok true else late
