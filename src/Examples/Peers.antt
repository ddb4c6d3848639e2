-- ===== src/Examples/Peers.antt =====
-- The reservoir of src/ice/reservoir.rs.
use zfx_subzero.Prelude.{◌+◌, ◌≡◌, refl, some, [], ◌∷◌, nat_eq, arith}
use zfx_subzero.Prelude.HashMap
use zfx_subzero.Prelude.HashMap.{HashMap, contains_key}
use zfx_subzero.Ice.{live, k}
use zfx_subzero.Ice.Quorum.{Quorum, tally, decide}
use zfx_subzero.Ice.Reservoir.{Entry, Reservoir, fill, sample, sample_loop}
use zfx_subzero.Ice.Reservoir.Quorums.{HasOpenQuorums, fill-HasOpenQuorums}
use zfx_subzero.Ice.Reservoir.Decisions.{decide_times, nbootstrapped-decide_times}
use zfx_subzero.Ice.Reservoir.Sampling.{IsSample, sample-IsSample}
use zfx_subzero.Ice.Reservoir.Rounds.{Ends, sample_loop-Ends}

abbrev agreed : Quorum
agreed = (1, live) ∷ (2, live) ∷ []

abbrev known : Entry
known = record { ip = 100; choice = live; conviction = 2 }

-- Peer 3 was found live twice, and peer 1 has said that it is live again.
abbrev asked : Reservoir
asked = record {
  quorums = (3, (1, live) ∷ []) ∷ [];
  decisions = (3, known) ∷ [];
  random_queue = (3, known) ∷ [];
  nbootstrapped = 0;
}

asked-HasOpenQuorums : HasOpenQuorums asked
unfolding HasOpenQuorums HashMap.get
asked-HasOpenQuorums id q e = ground arith

fill-HasOpenQuorums_example :
    HasOpenQuorums (fill 2 (record { peer_id = 3; choice = live } ∷ []) asked).0
fill-HasOpenQuorums_example =
    fill-HasOpenQuorums 2 (record { peer_id = 3; choice = live } ∷ []) asked asked-HasOpenQuorums

agreed_live : decide agreed ≡ some live
unfolding decide tally
agreed_live = refl

asked_found : HashMap.get 3 asked.decisions ≡ some known
unfolding HashMap.get
asked_found = refl

-- Two more decisions about one peer count two bootstrapped peers.
nbootstrapped-decide_times_example : (decide_times 2 3 agreed asked).nbootstrapped ≡ 0 + 2
nbootstrapped-decide_times_example =
    nbootstrapped-decide_times 2 3 agreed asked known agreed_live asked_found refl (omega arith)

sample-IsSample_example : IsSample k (sample (λ xs. xs) asked)
sample-IsSample_example = sample-IsSample (λ xs. xs) (λ xs h. h) asked (omega arith, tt)

sample_loop-Ends_example : Ends (λ xs. xs) 0 [] asked (sample_loop (λ xs. xs) 7 0 [] asked)
sample_loop-Ends_example = sample_loop-Ends (λ xs. xs) (λ xs. refl) 7 asked (omega arith)
