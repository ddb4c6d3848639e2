-- ===== src/Ice/Reservoir/Quorums.antt =====
-- src/ice/reservoir.rs, process_quorum and process_outcome: who is counted in a quorum, and that a
-- full quorum is never stored.
use zfx_subzero.Prelude.{
  ◌<◌, ◌≡◌, inl, inr, refl, not, ◌&&◌, none, some, List, [], ◌∷◌, arith, length, if◌then◌else◌,
  nat_eq, eqb, Bool-cases, Option-cases, eqb_iff,
}
use zfx_subzero.Prelude.HashMap
use zfx_subzero.Prelude.HashMap.{HashMap, contains_key, is_some, get-insert, get-remove}
use zfx_subzero.Ice.{PeerId, Choice, Outcome, k}
use zfx_subzero.Ice.Quorum.{Quorum, decide}
use zfx_subzero.Ice.Reservoir.{
  Reservoir, process_quorum, process_decision, process_outcome, process_outcomes, fill,
  reset_conviction, reset_faulty_decision,
}

-- The quorum of a peer, empty if there is none.
unfoldable pub quorum_of : PeerId → Reservoir → Quorum
quorum_of id r = elim (HashMap.get id r.quorums) [ some q ↦ q | none ↦ [] ]

-- In the quorum that process_quorum returns, a responder who was counted keeps its first choice, a
-- new responder has its choice, and the choices of all others are as before.
pub process_quorum-get :
    (b id : PeerId) (c : Choice) (r : Reservoir) (j : PeerId)
    → HashMap.get j (process_quorum b id c r).1 ≡ (
        if eqb b j && not (contains_key b (quorum_of id r))
        then some c
        else HashMap.get j (quorum_of id r))
unfolding process_quorum quorum_of HashMap.get
process_quorum-get b id c r j = elim (Option-cases (HashMap.get id r.quorums)) [
  | inl e ↦ rw (e, process_quorum, quorum_of) (ground (arith, get-insert b c [] j))
  | inr (q, e) ↦
      rw (e, process_quorum, quorum_of)
        (elim (Bool-cases (contains_key b q)) [
          | inl old ↦ rw old (ground arith)
          | inr new ↦ rw new (ground (arith, get-insert b c q j))
        ])
]

-- After process_quorum, the stored quorum of the peer is the returned one, the quorums of all other
-- peers are as before, and so are the decisions and the counter of bootstrapped peers.
pub process_quorum-stored :
    (b id : PeerId) (c : Choice) (r : Reservoir)
    → ((j : PeerId)
        → HashMap.get j (process_quorum b id c r).0.quorums
          ≡ (if eqb id j then some (process_quorum b id c r).1 else HashMap.get j r.quorums))
      × ((process_quorum b id c r).0.decisions ≡ r.decisions)
      × ((process_quorum b id c r).0.nbootstrapped ≡ r.nbootstrapped)
unfolding process_quorum HashMap.get
process_quorum-stored b id c r = elim (Option-cases (HashMap.get id r.quorums)) [
  | inl e ↦ rw (e, process_quorum) (λ j. get-insert id _ r.quorums j, refl, refl)
  | inr (q, e) ↦
      rw (e, process_quorum)
        (elim (Bool-cases (contains_key b q)) [
          | inl old ↦ rw old (λ j. ground (arith, e, eqb_iff id j), refl, refl)
          | inr new ↦ rw new (λ j. get-insert id _ r.quorums j, refl, refl)
        ])
]

-- A decision clears the quorum of the peer and no other.
pub process_decision-quorums :
    (id : PeerId) (q : Quorum) (r : Reservoir) (j : PeerId)
    → HashMap.get j (process_decision id q r).0.quorums
      ≡ (if eqb id j then none else HashMap.get j r.quorums)
unfolding process_decision HashMap.get reset_conviction HashMap.remove
process_decision-quorums id q r j = elim (Option-cases (decide q)) [
  | inl e ↦ rw (e, process_decision, reset_conviction) (get-remove id r.quorums j)
  | inr (d, e) ↦ rw (e, process_decision, reset_conviction) (get-remove id r.quorums j)
]

-- Every stored quorum still waits for a responder.
unfoldable pub HasOpenQuorums : Reservoir → Type 0
HasOpenQuorums r = (id : PeerId) (q : Quorum) → HashMap.get id r.quorums ≡ some q → length q < k

process_outcome-HasOpenQuorums :
    (b : PeerId) (o : Outcome) (r : Reservoir)
    → HasOpenQuorums r
    → HasOpenQuorums (process_outcome b o r).0
unfolding process_outcome HasOpenQuorums
process_outcome-HasOpenQuorums b o r h id q e =
    let stored = process_quorum-stored b o.peer_id o.choice r in
    let cleared =
      process_decision-quorums o.peer_id (process_quorum b o.peer_id o.choice r).1
        (process_quorum b o.peer_id o.choice r).0 id in
    ground (arith, h id q, stored.0 id, cleared)

process_outcomes-HasOpenQuorums :
    (b : PeerId) (os : List Outcome) (r : Reservoir)
    → HasOpenQuorums r
    → HasOpenQuorums (process_outcomes b os r).0
unfolding process_outcomes
process_outcomes-HasOpenQuorums b [] r h = h
process_outcomes-HasOpenQuorums b (o ∷ os) r h =
    process_outcomes-HasOpenQuorums b os (process_outcome b o r).0
      (process_outcome-HasOpenQuorums b o r h)

-- If every stored quorum has fewer than `k` choices, then so it is after `fill`, for any responder
-- and any outcomes.
pub fill-HasOpenQuorums :
    (b : PeerId) (os : List Outcome) (r : Reservoir)
    → HasOpenQuorums r
    → HasOpenQuorums (fill b os r).0
unfolding fill reset_faulty_decision HasOpenQuorums
fill-HasOpenQuorums b os r h = process_outcomes-HasOpenQuorums b os (reset_faulty_decision b r) h
