-- ===== src/Sleet/Finality/Votes.antt =====
-- src/sleet/sleet.rs and src/graph/conflict_graph.rs: how many votes make a transaction final.
use zfx_subzero.Prelude.{ℕ, ◌≡◌, some, List, [], ◌∷◌, leb, if◌then◌else◌, Result, ok, ◌>>=◌, nat_eq}
use zfx_subzero.Prelude.HashMap
use zfx_subzero.Graph
use zfx_subzero.Graph.ConflictGraph.{ConflictGraph, ConflictSet, beta2}
use zfx_subzero.Graph.ConflictGraph.Votes.{update_conflict_set}
use zfx_subzero.Cell.Types.{CellHash}

-- Votes in a row for a transaction, each with its conviction and that of the preferred one.
unfoldable pub vote_all : CellHash → List (ℕ × ℕ) → ConflictGraph → Result Graph.Error ConflictGraph
vote_all h [] graph = ok graph
vote_all h ((d1, d2) ∷ votes) graph =
    update_conflict_set h d1 d2 graph >>= λ voted. vote_all h votes voted

-- A conflict set of the graph, whose last vote was for the transaction, with the members and with
-- `n` votes, or `beta2` if that is less.
record Voted (h : CellHash) (members : List CellHash) (n : ℕ) (graph : ConflictGraph) : Type 0 where
  set : ConflictSet
  found : HashMap.get h graph.cs ≡ some set
  same : set.conflicts ≡ members
  last : set.last ≡ h
  counted : set.cnt ≡ (if leb n beta2 then n else beta2)
