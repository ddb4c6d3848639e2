-- ===== src/Ice/Reservoir.antt =====
-- src/ice/reservoir.rs: the decisions about the peers and the quorums that lead to them.
pub mod Quorums
pub mod Decisions
pub mod Sampling
pub mod Rounds
use zfx_subzero.Prelude.{
  ℕ, zero, suc, ◌+◌, ◌-◌, Bool, true, false, not, ◌&&◌, ◌||◌, Option, none, some, List, [], ◌∷◌,
  eqb, ltb, leb, length, if◌then◌else◌, nat_eq,
}
use zfx_subzero.Prelude.HashMap
use zfx_subzero.Prelude.HashMap.{HashMap, is_some, contains_key}
use zfx_subzero.Ice.{PeerId, SocketAddr, Choice, live, faulty, choice_beq, Outcome, k, beta1}
use zfx_subzero.Ice.Quorum.{Quorum, decide}

pub record Entry : Type 0 where
  pub ip : SocketAddr
  pub choice : Choice
  pub conviction : ℕ

-- The end of the queue, from which `pop` takes, comes first.
pub record Reservoir : Type 0 where
  pub quorums : HashMap PeerId Quorum
  pub decisions : HashMap PeerId Entry
  pub random_queue : List (PeerId × Entry)
  pub nbootstrapped : ℕ

unfoldable pub new : Reservoir
new = record { quorums = []; decisions = []; random_queue = []; nbootstrapped = 0 }

unfoldable pub get_decision : Reservoir → PeerId → Option Entry
get_decision r id = HashMap.get id r.decisions

-- An entry that has the choice, with a conviction of at least `beta1`.
abbrev pub is_strong : Choice → Entry → Bool
is_strong choice entry = choice_beq entry.choice choice && leb beta1 entry.conviction

unfoldable pub get_endpoint_having_strong_choice : Reservoir → PeerId → Choice → Option SocketAddr
get_endpoint_having_strong_choice r id choice = elim (HashMap.get id r.decisions) [
  | some entry ↦ if is_strong choice entry then some entry.ip else none
  | none ↦ none
]

unfoldable pub get_live_endpoint : Reservoir → PeerId → Option SocketAddr
get_live_endpoint r id = get_endpoint_having_strong_choice r id live

live_of : HashMap PeerId Entry → List (PeerId × SocketAddr)
live_of [] = []
live_of ((id, entry) ∷ m) =
    let rest = live_of m in if is_strong live entry then (id, entry.ip) ∷ rest else rest

unfoldable pub get_live_peers : Reservoir → List (PeerId × SocketAddr)
unfolding live_of
get_live_peers r = live_of r.decisions

unfoldable pub insert : PeerId → Entry → Reservoir → Reservoir
insert id entry r = record r { decisions = HashMap.insert id entry r.decisions }

unfoldable pub insert_new : PeerId → Entry → Reservoir → Reservoir
insert_new id entry r =
    if contains_key id r.decisions
    then r
    else record r { decisions = HashMap.insert id entry r.decisions }

abbrev edit : PeerId → (Entry → Entry) → Reservoir → Reservoir
edit id f r = record r { decisions = HashMap.modify id f r.decisions }

unfoldable pub set_choice : PeerId → Choice → Reservoir → Reservoir
set_choice id choice = edit id (λ entry. record entry { choice = choice; conviction = 0 })

unfoldable pub switched : Choice → Entry → Entry
switched choice entry =
    if not (choice_beq entry.choice choice)
    then record entry { choice = choice; conviction = 0 }
    else entry

unfoldable pub update_choice : PeerId → Choice → Reservoir → Reservoir × Bool
update_choice id choice r = (edit id (switched choice) r, leb k r.nbootstrapped)

-- A faulty peer that answers is live again.
unfoldable pub revived : Entry → Entry
revived entry = elim entry.choice [
  | faulty ↦ record entry { choice = live; conviction = 0 }
  | live ↦ entry
]

unfoldable pub reset_faulty_decision : PeerId → Reservoir → Reservoir
reset_faulty_decision id = edit id revived

unfoldable pub reset_conviction : PeerId → Reservoir → Reservoir
reset_conviction id = edit id (λ entry. record entry { conviction = 0 })

unfoldable pub process_quorum : PeerId → PeerId → Choice → Reservoir → Reservoir × Quorum
process_quorum responder_id peer_id choice r = elim (HashMap.get peer_id r.quorums) [
  | some quorum ↦
      if contains_key responder_id quorum
      then (r, quorum)
      else (let grown = HashMap.insert responder_id choice quorum in
          (record r { quorums = HashMap.insert peer_id grown r.quorums }, grown))
  | none ↦
      let fresh = HashMap.insert responder_id choice [] in
      (record r { quorums = HashMap.insert peer_id fresh r.quorums }, fresh)
]

-- The entry after a decision, and the counter of bootstrapped peers.
unfoldable pub decided : Choice → Entry → Entry
decided decision entry =
    if not (choice_beq decision entry.choice)
    then record entry { choice = decision; conviction = 0 }
    else record entry { conviction = entry.conviction + 1 }

unfoldable pub recount : Choice → Entry → ℕ → ℕ
recount decision entry n =
    if not (choice_beq decision entry.choice)
    then n
    else if ltb 0 n && choice_beq entry.choice faulty && leb beta1 (entry.conviction + 1)
    then n - 1
    else if choice_beq entry.choice live && leb beta1 (entry.conviction + 1)
    then n + 1
    else n

unfoldable pub process_decision : PeerId → Quorum → Reservoir → Reservoir × Bool
process_decision id quorum r = elim (decide quorum) [
  | some decision ↦
      let n : ℕ = elim (HashMap.get id r.decisions) [
        | some entry ↦ recount decision entry r.nbootstrapped
        | none ↦ r.nbootstrapped
      ] in
      (
        record r {
          decisions = HashMap.modify id (decided decision) r.decisions;
          quorums = HashMap.remove id r.quorums;
          nbootstrapped = n;
        },
        leb k n,
      )
  | none ↦ (reset_conviction id (record r { quorums = HashMap.remove id r.quorums }), false)
]

unfoldable pub process_outcome : PeerId → Outcome → Reservoir → Reservoir × Bool
process_outcome responder_id outcome r =
    let (r', q) = process_quorum responder_id outcome.peer_id outcome.choice r in
    let (r'', bootstrapped) = process_decision outcome.peer_id q r' in
    if leb k (length q)
    then (
      r'',
      bootstrapped
          && is_some (get_endpoint_having_strong_choice r'' outcome.peer_id outcome.choice),
    )
    else (r', false)

unfoldable pub process_outcomes : PeerId → List Outcome → Reservoir → Reservoir × Bool
process_outcomes responder_id [] r = (r, false)
process_outcomes responder_id (outcome ∷ outcomes) r =
    let (r', changed) = process_outcome responder_id outcome r in
    let (r'', later) = process_outcomes responder_id outcomes r' in (r'', changed || later)

unfoldable pub fill : PeerId → List Outcome → Reservoir → Reservoir × Bool × Bool
fill responder_id outcomes r =
    let (r', changed) =
      process_outcomes responder_id outcomes (reset_faulty_decision responder_id r) in
    (r', leb k r'.nbootstrapped, changed)

undecided_of : HashMap PeerId Entry → List (PeerId × Entry)
undecided_of [] = []
undecided_of ((id, entry) ∷ m) =
    let rest = undecided_of m in if leb beta1 entry.conviction then rest else (id, entry) ∷ rest

-- How a round of the loop of `sample` ends: with `break`, or by going on.
pub data Round : Type 0 where
  done : Reservoir → HashMap PeerId Entry → Round
  again : ℕ → HashMap PeerId Entry → Reservoir → Round

-- `shuffle` is the shuffle of the `rand` crate, at the state of its generator.
module _ (shuffle : List (PeerId × Entry) → List (PeerId × Entry)) where
  unfoldable pub permute : Reservoir → Reservoir × Bool
  unfolding undecided_of
  permute r = elim (undecided_of r.decisions) [
    | [] ↦ (r, false)
    | x ∷ rest ↦ (record r { random_queue = shuffle (x ∷ rest) }, true)
  ]

  -- A round of the loop of `sample`; `i` counts what was sampled.
  unfoldable pub sample_round : ℕ → HashMap PeerId Entry → Reservoir → Round
  unfolding permute
  sample_round i samples r =
      let pick : Round = elim r.random_queue [
        | (id, entry) ∷ rest ↦
            again (i + 1) (HashMap.insert id entry samples) (record r { random_queue = rest })
        | [] ↦ if (permute r).1 then again i samples (permute r).0 else done (permute r).0 samples
      ] in
      if leb k i then done r samples else pick

  -- The loop of `sample`, on fuel.
  unfoldable pub sample_loop :
      ℕ → ℕ → HashMap PeerId Entry → Reservoir → Reservoir × HashMap PeerId Entry
  unfolding sample_round
  sample_loop zero i samples r = (r, samples)
  sample_loop (suc n) i samples r = elim (sample_round i samples r) [
    | done r' samples' ↦ (r', samples')
    | again i' samples' r' ↦ sample_loop n i' samples' r'
  ]

  -- Each entry that is sampled takes at most two rounds.
  unfoldable pub sample : Reservoir → Reservoir × HashMap PeerId Entry
  unfolding sample_loop
  sample r = if ltb 0 (length r.decisions) then sample_loop 5 0 [] r else (r, [])
