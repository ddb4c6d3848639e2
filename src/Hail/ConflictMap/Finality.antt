-- ===== src/Hail/ConflictMap/Finality.antt =====
-- src/hail/conflict_map.rs and `is_accepted_block`: which blocks are final.
use zfx_subzero.Prelude.{
  ℕ, zero, suc, ◌%◌, ◌^◌, ◌≡◌, refl, Bool, true, false, none, some, [], ◌∷◌, arith, eqb, leb,
  if◌then◌else◌, nat_eq, ok, err,
}
use zfx_subzero.Prelude.HashMap
use zfx_subzero.Prelude.HashMap.{get-insert}
use zfx_subzero.Hail.{BlockHash, BlockHeight, Vertex, invalid_block_height, beta1, beta2}
use zfx_subzero.Hail.ConflictMap.{
  ConflictSet, ConflictMap, is_singleton_set, is_singleton, get_confidence, is_accepted_block,
  updated, new_set, update_conflict_set,
}

-- A block is final by the conflict set of its height: it is preferred, and its confidence is `beta1`
-- if there is no other, `beta2` otherwise.
pub decides : ConflictSet → BlockHash → Bool
decides cs block_hash =
    if eqb cs.pref block_hash
    then (if is_singleton_set cs then leb beta1 cs.cnt else leb beta2 cs.cnt)
    else false

-- `is_accepted_block` follows that rule at a height that is known, and is an error at another.
pub is_accepted_block-decides :
    (m : ConflictMap) (vx : Vertex)
    → is_accepted_block m vx ≡ elim (HashMap.get vx.height m) [
      | none ↦ err (invalid_block_height vx.height)
      | some cs ↦ ok (decides cs vx.block_hash)
    ]
unfolding is_accepted_block is_singleton get_confidence decides
is_accepted_block-decides m vx = ground arith

-- No two conflicting blocks are final at the same height.
pub is_accepted_block_unique :
    (m : ConflictMap) (a b : Vertex)
    → a.height ≡ b.height
    → is_accepted_block m a ≡ ok true
    → is_accepted_block m b ≡ ok true
    → a ≡ b
unfolding decides
is_accepted_block_unique m a b same p q =
    ground (arith, is_accepted_block-decides m a, is_accepted_block-decides m b)

-- A vote for a block of a known height succeeds, and changes the conflict
-- set of that height alone.
pub get-update_conflict_set :
    (m : ConflictMap) (height : BlockHeight) (block_hash : BlockHash) (d1 d2 : ℕ) (cs : ConflictSet)
    → HashMap.get height m ≡ some cs
    → (m' : ConflictMap) × (update_conflict_set height block_hash d1 d2 m ≡ ok m')
      × ((j : BlockHeight)
          → HashMap.get j m'
            ≡ (if eqb height j then some (updated block_hash d1 d2 cs) else HashMap.get j m))
unfolding update_conflict_set
get-update_conflict_set m height block_hash d1 d2 cs found = (
  HashMap.insert height (updated block_hash d1 d2 cs) m,
  rw (found, update_conflict_set),
  get-insert height (updated block_hash d1 d2 cs) m,
)

-- `n` votes in a row for the same block of greatest conviction.
pub votes : ℕ → BlockHash → ConflictSet → ConflictSet
votes zero block_hash cs = cs
votes (suc n) block_hash cs = updated block_hash 1 0 (votes n block_hash cs)

-- What the votes for the one block of a height leave.
record Voted (n : ℕ) (t : BlockHash) (cs : ConflictSet) : Type 0 where
  conflicts : cs.conflicts ≡ t ∷ []
  pref : cs.pref ≡ t
  last : cs.last ≡ t
  cnt : cs.cnt ≡ n % 2 ^ 8

step-Voted :
    (n : ℕ) (t : BlockHash) (cs : ConflictSet) → Voted n t cs → Voted (suc n) t (updated t 1 0 cs)
unfolding updated
step-Voted n t cs v = record {
  conflicts = ground (arith, v.conflicts);
  pref = ground arith;
  last = ground (arith, v.last);
  cnt = ground (arith, v.last, v.cnt);
}

votes-Voted : (n : ℕ) (t : BlockHash) → Voted n t (votes n t (new_set t))
unfolding votes new_set updated
votes-Voted zero t = record { conflicts = refl; pref = refl; last = refl; cnt = refl }
votes-Voted (suc n) t = step-Voted n t (votes n t (new_set t)) (votes-Voted n t)

-- A block without a rival is final after `n` votes exactly if `n`, as a byte, is at least `beta1`.
pub votes-decides :
    (n : ℕ) (t : BlockHash) → decides (votes n t (new_set t)) t ≡ leb beta1 (n % 2 ^ 8)
unfolding decides is_singleton_set
votes-decides n t = let v = votes-Voted n t in rw (v.pref, v.conflicts, v.cnt) (ground arith)
