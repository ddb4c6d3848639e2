-- ===== src/Ice/Quorum.antt =====
-- src/ice/quorum.rs: the choices of the responders about a peer, and the decision by them.
use zfx_subzero.Prelude.{
  ℕ, ◌+◌, ◌*◌, ◌≤◌, ◌<◌, ◌≡◌, ◌↔◌, Option, none, some, [], ◌∷◌, arith, ltb, length, if◌then◌else◌,
  nat_eq,
}
use zfx_subzero.Prelude.HashMap.{HashMap}
use zfx_subzero.Ice.{PeerId, Choice, live, faulty, choice_beq, threshold}

abbrev pub Quorum : Type 0
Quorum = HashMap PeerId Choice

-- The counters of the loop.
unfoldable pub tally : Choice → Quorum → ℕ
unfolding choice_beq
tally choice [] = 0
tally choice ((id, c) ∷ q) = tally choice q + (if choice_beq c choice then 1 else 0)

unfoldable pub decide : Quorum → Option Choice
decide q =
    if ltb threshold (tally live q)
    then some live
    else if ltb threshold (tally faulty q)
    then some faulty
    else none

tally-add : (q : Quorum) → tally live q + tally faulty q ≡ length q
unfolding tally choice_beq
tally-add [] = omega arith
tally-add ((id, live) ∷ q) = omega (arith, tally-add q)
tally-add ((id, faulty) ∷ q) = omega (arith, tally-add q)

-- With as many choices as a decision needs, and no more, a quorum decides for a choice exactly if it
-- has more than the threshold of them.
pub decide_iff :
    (q : Quorum) (c : Choice)
    → length q ≤ 2 * threshold + 1
    → (decide q ≡ some c) ↔ (threshold < tally c q)
unfolding decide
decide_iff q live h = ground (arith, tally-add q)
decide_iff q faulty h = ground (arith, tally-add q)
