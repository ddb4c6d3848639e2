-- ===== src/Graph/ConflictGraph/Inheritance.antt =====
-- src/graph/conflict_graph.rs: a new cell takes over the vote of the first cell it conflicts with.
use zfx_subzero.Prelude.{
  ◌≡◌, refl, ◌∙◌, Bool, true, false, Option, none, some, List, [], ◌∷◌, ◌++◌, eqb, eqb_iff, ltb,
  length, if◌then◌else◌, ok, nat_eq, arith, Option-cases, Bool-cases, inl, inr,
}
use zfx_subzero.Prelude.HashSet
use zfx_subzero.Prelude.HashSet.{HashSet, contains}
use zfx_subzero.Prelude.HashMap
use zfx_subzero.Prelude.HashMap.{HashMap, get-insert, get-modify}
use zfx_subzero.Prelude.Action.{>>=-eq-ok}
use zfx_subzero.Graph.ConflictGraph.{
  ConflictGraph, ConflictSet, spend, join_sets, own_set, link, vote_in, enter, insert_new,
  insert_cell, first_conflict, open_vertices, pending,
}
use zfx_subzero.Graph.ConflictGraph.Rivals.{rivals, spend-rivals, spend-cs}
use zfx_subzero.Graph.ConflictGraph.Votes.{get_confidence, get_preferred}
use zfx_subzero.Cell.Types.{CellHash, Cell, Crypto}
use zfx_subzero.Cell.Ids.{from_inputs, from_outputs}

-- The first cell of a list that passes a test.
unfoldable pub first_of : (CellHash → Bool) → List CellHash → Option CellHash
first_of p [] = none
first_of p (x ∷ xs) = let rest = first_of p xs in if p x then some x else rest

-- The vote of a set, without its members.
record SameVote (a b : ConflictSet) : Type 0 where
  pref : a.pref ≡ b.pref
  cnt : a.cnt ≡ b.cnt

join_sets-vote :
    (h : CellHash) (conflicts : List CellHash) (cs : HashMap CellHash ConflictSet) (j : CellHash)
    (set : ConflictSet)
    → HashMap.get j cs ≡ some set
    → (join_sets h conflicts cs).1 ≡ ok tt
    → (set' : ConflictSet) × (HashMap.get j (join_sets h conflicts cs).0 ≡ some set')
      × SameVote set' set
unfolding join_sets
join_sets-vote h [] cs j set found e = (set, found, record { pref = refl; cnt = refl })
join_sets-vote h (conflict ∷ conflicts) cs j set found e =
    elim (Bool-cases (HashMap.contains_key conflict cs)) [
      | inl there ↦
          let grow : ConflictSet → ConflictSet =
            λ s. record s { conflicts = HashSet.insert h s.conflicts } in
          let grown : ConflictSet = if eqb conflict j then grow set else set in
          let step : HashMap.get j (HashMap.modify conflict grow cs) ≡ some grown =
            get-modify conflict grow cs j ∙ ground (arith, found) in
          let (set', later, same) =
            join_sets-vote h conflicts (HashMap.modify conflict grow cs) j grown step
              (rw there at e) in
          (
            set',
            rw there later,
            record { pref = same.pref ∙ ground arith; cnt = same.cnt ∙ ground arith },
          )
      | inr absent ↦ absurd (cc (rw absent at e))
    ]

-- The first conflict is the first rival.
first_conflict-first_of :
    (h : CellHash) (c : HashSet CellHash) (p : CellHash → Bool) (order rest : List CellHash)
    {first : CellHash}
    → ((y : CellHash) → eqb h y ≡ false → contains c y ≡ p y)
    → contains order h ≡ false
    → first_of p order ≡ some first
    → (first_conflict (order ++ rest) c ≡ some first) × (contains c first ≡ true)
unfolding first_conflict first_of contains
first_conflict-first_of h c p [] rest same fresh e = absurd (cc e)
first_conflict-first_of h c p (x ∷ order) rest same fresh e = elim (Bool-cases (p x)) [
  | inl rival ↦ ground (arith, same x, eqb_iff h x, eqb_iff x h)
  | inr harmless ↦
      let later = first_conflict-first_of h c p order rest same (ground arith) (rw harmless at e) in
      ground (arith, same x, eqb_iff h x, eqb_iff x h, later)
]

own_set-vote :
    (h : CellHash) (c : HashSet CellHash) (order : List CellHash)
    (cs : HashMap CellHash ConflictSet) {own : ConflictSet} (first : CellHash) (set : ConflictSet)
    → own_set h c order cs ≡ ok own
    → first_conflict order c ≡ some first
    → contains c first ≡ true
    → HashMap.get first cs ≡ some set
    → SameVote own set
unfolding own_set
own_set-vote h c order cs {own} first set e found inside got =
    let filled = nonempty c inside in
    record { pref = ground (arith, filled); cnt = ground (arith, filled) }
  where
    nonempty : (l : List CellHash) → contains l first ≡ true → ltb 0 (length l) ≡ true
    nonempty [] k = absurd (unfold contains in cc k)
    nonempty (x ∷ l) k = ground arith

vote_in-vote :
    (h : CellHash) (c : HashSet CellHash) (graph : ConflictGraph) (first : CellHash)
    (set : ConflictSet)
    → (vote_in h c graph).1 ≡ ok tt
    → first_conflict graph.insertion_order c ≡ some first
    → contains c first ≡ true
    → HashMap.get first graph.cs ≡ some set
    → (own : ConflictSet) × (HashMap.get h (vote_in h c graph).0.cs ≡ some own) × SameVote own set
unfolding vote_in
vote_in-vote h c graph first set e found inside got =
    let (own, made, _) =
      >>=-eq-ok (λ g. (g, own_set h c g.insertion_order g.cs))
        (λ own g. (record g { cs = HashMap.insert h own g.cs }, ok tt)) graph e in
    (
      own,
      rw made (get-insert h own graph.cs h ∙ ground (arith, eqb_iff h h)),
      own_set-vote h c graph.insertion_order graph.cs first set made found inside got,
    )

insert_new-vote :
    (crypto : Crypto) (cell : Cell) (graph : ConflictGraph) (first : CellHash) (set : ConflictSet)
    → (insert_new crypto cell graph).1 ≡ ok tt
    → contains graph.insertion_order (crypto.hash_cell cell) ≡ false
    → first_of (rivals graph.vertices (from_inputs crypto cell.inputs)) graph.insertion_order
      ≡ some first
    → HashMap.get first graph.cs ≡ some set
    → (own : ConflictSet) × (HashMap.get (crypto.hash_cell cell) (insert_new crypto cell graph).0.cs
        ≡ some own)
      × SameVote own set
unfolding insert_new enter link contains
insert_new-vote crypto cell graph first set e fresh earliest got =
    let h = crypto.hash_cell cell in
    let ids = from_inputs crypto cell.inputs in
    let produced = from_outputs crypto h cell.outputs in
    let (c, spent, entered) =
      >>=-eq-ok (spend h ids []) (λ conflicts. enter h produced conflicts) graph e in
    let kept = spend-cs h ids [] graph in
    let g = (spend h ids [] graph).0 in
    let opened = record g {
      vertices = open_vertices pending produced g.vertices;
      insertion_order = g.insertion_order ++ h ∷ [];
    } in
    let (_, linked, voted) = >>=-eq-ok (link h c) (λ _. vote_in h c) opened entered in
    let (found, inside) =
      first_conflict-first_of h c (rivals graph.vertices ids) graph.insertion_order (h ∷ [])
        (λ y other. spend-rivals h ids [] graph y other spent) fresh earliest in
    let (set', got', same) = join_sets-vote h c g.cs first set (rw kept.0 got) linked in
    let linked_graph = record opened { cs = (join_sets h c g.cs).0 } in
    let (own, stored, alike) =
      vote_in-vote h c linked_graph first set' voted (rw kept.1 found) inside got' in
    (
      own,
      rw spent (rw linked stored),
      record { pref = alike.pref ∙ same.pref; cnt = alike.cnt ∙ same.cnt },
    )

read_vote :
    (graph : ConflictGraph) (h : CellHash) (own set : ConflictSet)
    → HashMap.get h graph.cs ≡ some own
    → SameVote own set
    → (get_confidence graph h ≡ ok set.cnt) × (get_preferred graph h ≡ ok set.pref)
unfolding get_confidence get_preferred
read_vote graph h own set stored alike =
    (ground (arith, stored, alike.cnt), ground (arith, stored, alike.pref))

-- If `insert_cell` succeeds on a cell that is not in the insertion order, and some cell there spent
-- one of its inputs, then the new cell starts with the confidence and the preference of the first
-- such cell.
pub insert_cell-get_confidence :
    (crypto : Crypto) (cell : Cell) (graph : ConflictGraph) (first : CellHash) (set : ConflictSet)
    → contains graph.insertion_order (crypto.hash_cell cell) ≡ false
    → first_of (rivals graph.vertices (from_inputs crypto cell.inputs)) graph.insertion_order
      ≡ some first
    → HashMap.get first graph.cs ≡ some set
    → (insert_cell crypto cell graph).1 ≡ ok tt
    → (get_confidence (insert_cell crypto cell graph).0 (crypto.hash_cell cell) ≡ ok set.cnt)
      × (get_preferred (insert_cell crypto cell graph).0 (crypto.hash_cell cell) ≡ ok set.pref)
unfolding insert_cell
insert_cell-get_confidence crypto cell graph first set fresh earliest got e =
    elim (Option-cases (HashMap.get (crypto.hash_cell cell) graph.cells)) [
      | inl unknown ↦
          let h = crypto.hash_cell cell in
          let (own, stored, alike) =
            insert_new-vote crypto cell (record graph { cells = HashMap.insert h cell graph.cells })
              first set (rw (unknown, insert_cell) at e) fresh earliest got in
          rw (unknown, insert_cell)
            (read_vote
              (insert_new crypto cell
                (record graph { cells = HashMap.insert h cell graph.cells })).0
              h own set stored alike)
      | inr (old, known) ↦ absurd (cc (rw (known, insert_cell) at e))
    ]
