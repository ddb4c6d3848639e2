-- ===== src/Ice/Reservoir/Decisions.antt =====
-- src/ice/reservoir.rs, process_decision: the entry of the peer that is decided, and the count of
-- bootstrapped peers.
use zfx_subzero.Prelude.{
  ℕ, zero, suc, ◌+◌, ◌≤◌, ◌≡◌, inl, inr, none, some, arith, if◌then◌else◌, nat_eq, eqb,
  Option-cases, eqb_iff,
}
use mathlib.Core.Option
use zfx_subzero.Prelude.HashMap
use zfx_subzero.Prelude.HashMap.{HashMap, contains_key, is_some, get-modify}
use zfx_subzero.Ice.{PeerId, live, choice_beq, beta1}
use zfx_subzero.Ice.Quorum.{Quorum, decide}
use zfx_subzero.Ice.Reservoir.{
  Entry, Reservoir, process_decision, decided, recount, reset_conviction,
}

-- The entry of a peer after its quorum: a decision for the choice it has adds to its conviction, a
-- decision for the other one switches it, and no decision takes its conviction.
unfoldable pub entry_after : Quorum → Entry → Entry
unfolding decided
entry_after q entry = elim (decide q) [
  | some c ↦
      if choice_beq c entry.choice
      then record entry { conviction = entry.conviction + 1 }
      else record entry { choice = c; conviction = 0 }
  | none ↦ record entry { conviction = 0 }
]

-- process_decision changes the entry of the peer that is decided and no other: a decision for the
-- choice it has adds one to its conviction, a decision for the other choice switches it with
-- conviction 0, and a quorum without a decision sets its conviction to 0. A peer that has no entry
-- gets none.
pub process_decision-get :
    (id : PeerId) (q : Quorum) (r : Reservoir) (j : PeerId)
    → HashMap.get j (process_decision id q r).0.decisions ≡ (
        if eqb id j
        then Option.map (entry_after q) (HashMap.get j r.decisions)
        else HashMap.get j r.decisions)
unfolding process_decision HashMap.get reset_conviction entry_after
process_decision-get id q r j = elim (Option-cases (decide q)) [
  | inl e ↦
      rw (e, process_decision, reset_conviction, entry_after, decided)
        (ground (arith, get-modify id (λ x. record x { conviction = 0 }) r.decisions j))
  | inr (d, e) ↦
      rw (e, process_decision, reset_conviction, entry_after, decided)
        (ground (arith, get-modify id (decided d) r.decisions j))
]

-- `n` decisions in a row about one peer, by quorums that decide alike.
unfoldable pub decide_times : ℕ → PeerId → Quorum → Reservoir → Reservoir
decide_times zero id q r = r
decide_times (suc n) id q r = decide_times n id q (process_decision id q r).0

confirmed :
    (id : PeerId) (q : Quorum) (r : Reservoir) (entry : Entry)
    → decide q ≡ some live
    → HashMap.get id r.decisions ≡ some entry
    → entry.choice ≡ live
    → beta1 ≤ entry.conviction + 1
    → (HashMap.get id (process_decision id q r).0.decisions
        ≡ some (record entry { conviction = entry.conviction + 1 }))
      × ((process_decision id q r).0.nbootstrapped ≡ r.nbootstrapped + 1)
unfolding process_decision entry_after recount choice_beq
confirmed id q r entry d e c h = (step, count)
  where
    step :
        HashMap.get id (process_decision id q r).0.decisions
        ≡ some (record entry { conviction = entry.conviction + 1 })
    step = ground (arith, process_decision-get id q r id, eqb_iff id id, e, d, c)

    count : (process_decision id q r).0.nbootstrapped ≡ r.nbootstrapped + 1
    count = rw (d, process_decision) (rw e (ground (arith, c)))

-- Once the conviction of a live peer has come to `beta1 - 1`, each further quorum that decides it
-- live counts that same peer as bootstrapped once more: after `n` of them `nbootstrapped` has grown
-- by `n`.
pub nbootstrapped-decide_times :
    (n : ℕ) (id : PeerId) (q : Quorum) (r : Reservoir) (entry : Entry)
    → decide q ≡ some live
    → HashMap.get id r.decisions ≡ some entry
    → entry.choice ≡ live
    → beta1 ≤ entry.conviction + 1
    → (decide_times n id q r).nbootstrapped ≡ r.nbootstrapped + n
unfolding decide_times
nbootstrapped-decide_times zero id q r entry d e c h = omega arith
nbootstrapped-decide_times (suc n) id q r entry d e c h =
    let (e', more) = confirmed id q r entry d e c h in
    omega (
      arith,
      more,
      nbootstrapped-decide_times n id q (process_decision id q r).0
          (record entry { conviction = entry.conviction + 1 }) d e' c (omega arith),
    )
