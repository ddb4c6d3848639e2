-- ===== src/Examples/Blocks.antt =====
-- The conflict map of src/hail/conflict_map.rs.
use zfx_subzero.Prelude.{ℕ, ◌%◌, ◌^◌, ◌≡◌, refl, true, none, some, [], ◌∷◌, ok, leb, nat_eq}
use zfx_subzero.Prelude.HashMap
use zfx_subzero.Hail.{Block, Vertex, beta1}
use zfx_subzero.Hail.ConflictMap.{
  ConflictSet, ConflictMap, is_singleton_set, is_singleton, get_confidence, is_accepted_block,
  new_set,
}
use zfx_subzero.Hail.ConflictMap.Finality.{decides, is_accepted_block_unique, votes, votes-decides}
use zfx_subzero.Hail.ConflictMap.Lowest.{HoldsAt, hashes_at, receive, receive-HoldsAt}

abbrev rivals : ConflictSet
rivals = record { conflicts = 5 ∷ 9 ∷ []; pref = 5; last = 5; cnt = 20 }

-- At height 1 there are two blocks, of which the lower has the votes.
abbrev voted : ConflictMap
voted = (1, rivals) ∷ []

abbrev winner : Vertex
winner = record { height = 1; block_hash = 5 }

winner_accepted : is_accepted_block voted winner ≡ ok true
unfolding is_accepted_block is_singleton is_singleton_set get_confidence HashMap.get
winner_accepted = refl

is_accepted_block_unique_example : winner ≡ winner
is_accepted_block_unique_example =
    is_accepted_block_unique voted winner winner refl winner_accepted winner_accepted

voted_found : HashMap.get 1 voted ≡ some rivals
unfolding HashMap.get
voted_found = refl

votes-decides_example : decides (votes 11 5 (new_set 5)) 5 ≡ leb beta1 (11 % 2 ^ 8)
votes-decides_example = votes-decides 11 5

abbrev block : ℕ → Block
block n = record { predecessor = none; height = 1; vrf_out = n; cells = [] }

receive-HoldsAt_example :
    HoldsAt
      (hashes_at (λ b. b.vrf_out) 1 (block 5 ∷ block 9 ∷ []))
      (HashMap.get 1 (receive (λ b. b.vrf_out) (block 5 ∷ block 9 ∷ [])))
receive-HoldsAt_example = receive-HoldsAt (λ b. b.vrf_out) (block 5 ∷ block 9 ∷ []) 1
