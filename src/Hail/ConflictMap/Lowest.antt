-- ===== src/Hail/ConflictMap/Lowest.antt =====
-- src/hail/conflict_map.rs: until a height is decided, its preferred block is the one of lowest
-- hash.
use zfx_subzero.Prelude.{
  ◌≤◌, ◌<◌, ◌≡◌, refl, sym, subst, true, false, ◌||◌, Option, none, some, List, [], ◌∷◌, arith, eqb,
  eqb_iff, ltb, Bool-cases, Option-cases, inl, inr, if◌then◌else◌, nat_eq,
}
use zfx_subzero.Prelude.HashSet
use zfx_subzero.Prelude.HashSet.{HashSet, contains, contains-insert}
use zfx_subzero.Prelude.HashMap
use zfx_subzero.Prelude.HashMap.{get-insert}
use zfx_subzero.Hail.{BlockHash, BlockHeight, Block, beta1}
use zfx_subzero.Hail.ConflictMap.{
  ConflictSet, ConflictMap, new_set, lowest_from, is_lowest_hash, add_block, insert_block,
}

-- The preferred block is in the set, and none in the set has a lower hash.
pub record PrefersLowest (cs : ConflictSet) : Type 0 where
  pub member : contains cs.conflicts cs.pref ≡ true
  pub lowest : (h : BlockHash) → contains cs.conflicts h ≡ true → cs.pref ≤ h

lowest_from-le : (h : BlockHash) (hashes : List BlockHash) → lowest_from h hashes ≤ h
unfolding lowest_from
lowest_from-le h [] = omega arith
lowest_from-le h (hi ∷ hashes) = ground (arith, lowest_from-le (if ltb hi h then hi else h) hashes)

lowest_from-le_of_mem :
    (h : BlockHash) (hashes : List BlockHash) (x : BlockHash)
    → contains hashes x ≡ true
    → lowest_from h hashes ≤ x
unfolding lowest_from contains
lowest_from-le_of_mem h [] x k = absurd (cc k)
lowest_from-le_of_mem h (hi ∷ hashes) x k = ground (
  arith,
  lowest_from-le (if ltb hi h then hi else h) hashes,
  lowest_from-le_of_mem (if ltb hi h then hi else h) hashes x,
)

lowest_from-mem :
    (h : BlockHash) (hashes : List BlockHash)
    → (eqb h (lowest_from h hashes) || contains hashes (lowest_from h hashes)) ≡ true
unfolding lowest_from contains
lowest_from-mem h [] = ground arith
lowest_from-mem h (hi ∷ hashes) =
    ground (arith, lowest_from-mem (if ltb hi h then hi else h) hashes)

-- The lowest hash of a set is below every hash of it; if it is another, it is lower.
is_lowest_hash-le :
    (l : HashSet BlockHash) (hash h : BlockHash)
    → is_lowest_hash l hash ≡ true
    → contains l h ≡ true
    → hash ≤ h
unfolding is_lowest_hash contains
is_lowest_hash-le [] hash h p q = absurd (cc q)
is_lowest_hash-le (x ∷ xs) hash h p q =
    ground (arith, lowest_from-le x xs, lowest_from-le_of_mem x xs h)

lower-mem :
    (l : HashSet BlockHash) (hash : BlockHash)
    → is_lowest_hash l hash ≡ false
    → contains l hash ≡ true
    → (h : BlockHash) × (contains l h ≡ true) × (h < hash)
unfolding is_lowest_hash contains
lower-mem [] hash p q = absurd (cc q)
lower-mem (x ∷ xs) hash p q = (
  lowest_from x xs,
  lowest_from-mem x xs,
  ground (arith, lowest_from-le x xs, lowest_from-le_of_mem x xs hash),
)

new_set-PrefersLowest : (t : BlockHash) → PrefersLowest (new_set t)
unfolding new_set contains
new_set-PrefersLowest t = record { member = ground arith; lowest = λ h k. ground arith }

-- A block of lowest hash takes the preference over; another leaves it.
add_block-lowest :
    (t : BlockHash) (cs : ConflictSet)
    → cs.cnt < beta1
    → is_lowest_hash (HashSet.insert t cs.conflicts) t ≡ true
    → add_block t cs ≡ (record cs { conflicts = HashSet.insert t cs.conflicts; pref = t; cnt = 0 })
unfolding add_block
add_block-lowest t cs small low = ground arith

add_block-higher :
    (t : BlockHash) (cs : ConflictSet)
    → is_lowest_hash (HashSet.insert t cs.conflicts) t ≡ false
    → add_block t cs ≡ (record cs { conflicts = HashSet.insert t cs.conflicts })
unfolding add_block
add_block-higher t cs high = ground arith

add_block-PrefersLowest :
    (t : BlockHash) (cs : ConflictSet)
    → cs.cnt < beta1
    → PrefersLowest cs
    → PrefersLowest (add_block t cs)
add_block-PrefersLowest t cs small p =
    let grown = HashSet.insert t cs.conflicts in
    let inside : contains grown t ≡ true = ground (arith, contains-insert t cs.conflicts t) in
    elim (Bool-cases (is_lowest_hash grown t)) [
      | inl low ↦
          rw (add_block-lowest t cs small low)
            (record { member = inside; lowest = λ h k. is_lowest_hash-le grown t h low k })
      | inr high ↦
          let (lower, found, less) = lower-mem grown t high inside in
          let below : cs.pref ≤ t =
            ground (arith, contains-insert t cs.conflicts lower, p.lowest lower) in
          rw (add_block-higher t cs high) (record {
            member = ground (arith, contains-insert t cs.conflicts cs.pref, p.member);
            lowest = λ h k. ground (arith, contains-insert t cs.conflicts h, p.lowest h);
          })
    ]

-- The hashes of the blocks of a height.
pub hashes_at : (Block → BlockHash) → BlockHeight → List Block → List BlockHash
hashes_at hash_block height [] = []
hashes_at hash_block height (block ∷ blocks) =
    let rest = hashes_at hash_block height blocks in
    if eqb block.height height then hash_block block ∷ rest else rest

-- The blocks come in, the last of the list first.
pub receive : (Block → BlockHash) → List Block → ConflictMap
receive hash_block [] = []
receive hash_block (block ∷ blocks) = (insert_block hash_block block (receive hash_block blocks)).0

-- A conflict set of exactly these hashes that prefers the lowest.
pub record Holds (hashes : List BlockHash) (cs : ConflictSet) : Type 0 where
  pub same : (h : BlockHash) → contains cs.conflicts h ≡ contains hashes h
  pub unvoted : cs.cnt ≡ 0
  pub prefers : PrefersLowest cs

-- What a height of a map holds.
abbrev pub HoldsAt : List BlockHash → Option ConflictSet → Type 0
HoldsAt hashes none = hashes ≡ []
HoldsAt hashes (some cs) = Holds hashes cs

cnt-add_block : (t : BlockHash) (cs : ConflictSet) → cs.cnt ≡ 0 → (add_block t cs).cnt ≡ 0
unfolding add_block
cnt-add_block t cs z = ground arith

conflicts-add_block :
    (t : BlockHash) (cs : ConflictSet) → (add_block t cs).conflicts ≡ HashSet.insert t cs.conflicts
unfolding add_block
conflicts-add_block t cs = ground arith

add_block-Holds :
    (t : BlockHash) (hashes : List BlockHash) (cs : ConflictSet)
    → Holds hashes cs
    → Holds (t ∷ hashes) (add_block t cs)
unfolding contains
add_block-Holds t hashes cs p = record {
  same = λ h.
      rw (conflicts-add_block t cs, contains-insert t cs.conflicts h) (ground (arith, p.same h));
  unvoted = cnt-add_block t cs p.unvoted;
  prefers = add_block-PrefersLowest t cs (omega (arith, p.unvoted)) p.prefers;
}

new_set-Holds : (t : BlockHash) → Holds (t ∷ []) (new_set t)
unfolding new_set
new_set-Holds t = record { same = λ h. refl; unvoted = refl; prefers = new_set-PrefersLowest t }

-- The block as it comes to its own height.
arrive : BlockHash → Option ConflictSet → ConflictSet
arrive t none = new_set t
arrive t (some cs) = add_block t cs

get-insert_block :
    (hash_block : Block → BlockHash) (block : Block) (m : ConflictMap) (j : BlockHeight)
    → HashMap.get j (insert_block hash_block block m).0 ≡ (
        if eqb block.height j
        then some (arrive (hash_block block) (HashMap.get block.height m))
        else HashMap.get j m)
unfolding insert_block arrive
get-insert_block hash_block block m j = elim (Option-cases (HashMap.get block.height m)) [
  | inl vacant ↦ rw (vacant, insert_block) (get-insert _ _ m j)
  | inr (cs, found) ↦ rw (found, insert_block) (get-insert _ _ m j)
]

arrive-Holds :
    (t : BlockHash) (hashes : List BlockHash) (o : Option ConflictSet)
    → HoldsAt hashes o
    → Holds (t ∷ hashes) (arrive t o)
unfolding arrive
arrive-Holds t hashes none h = rw h (new_set-Holds t)
arrive-Holds t hashes (some cs) h = add_block-Holds t hashes cs h

-- Whatever blocks come in, in whatever order: as long as there are no votes, each height holds the
-- hashes of its blocks, and prefers the lowest of them.
pub receive-HoldsAt :
    (hash_block : Block → BlockHash) (blocks : List Block) (height : BlockHeight)
    → HoldsAt (hashes_at hash_block height blocks) (HashMap.get height (receive hash_block blocks))
unfolding receive hashes_at
receive-HoldsAt hash_block [] height = unfold HashMap.get in refl
receive-HoldsAt hash_block (block ∷ blocks) height =
    rw (get-insert_block hash_block block (receive hash_block blocks) height)
      (elim (Bool-cases (eqb block.height height)) [
        | inl same ↦ rw same (
            arrive-Holds (hash_block block) _ _ (
              subst
                (λ j.
                  HoldsAt (hashes_at hash_block height blocks)
                    (HashMap.get j (receive hash_block blocks)))
                (sym ((eqb_iff _ _).0 same)) (receive-HoldsAt hash_block blocks height)))
        | inr other ↦ rw other (receive-HoldsAt hash_block blocks height)
      ])
