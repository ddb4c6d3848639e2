-- ===== src/Sleet/Conflicts/Ending.antt =====
-- src/sleet/sleet.rs: the loop of `remove_conflicts` ends: each round takes a conflict set away.
use zfx_subzero.Prelude.{
  ℕ, zero, suc, ◌<◌, ◌≡◌, refl, ◌∙◌, List, [], ◌∷◌, ◌++◌, ok, err, panic, Result, nat_eq, arith,
  length, some,
}
use zfx_subzero.Prelude.HashMap
use zfx_subzero.Prelude.HashMap.{HashMap, length-modify, length-remove_lt, get-modify}
use zfx_subzero.Prelude.Action.{and_then, modify, ◌>>=◌, >>=-eq-ok}
use zfx_subzero.Graph.ConflictGraph.{ConflictGraph, ConflictSet, remove_from_conflict_set}
use zfx_subzero.Graph.ConflictGraph.Removal.{
  remove_cell, leave_sets, forget, own_conflicts, remove_from_vertices,
}
use zfx_subzero.Graph.ConflictGraph.Removal.Acceptance.{remove_from_vertices-cs, own_conflicts-ok}
use zfx_subzero.Cell.Types.{CellHash, Crypto}
use zfx_subzero.Storage.Txs.{set_status}
use zfx_subzero.Sleet.{Error, graph}
use zfx_subzero.Sleet.Tx.{TxHash, removed}
use zfx_subzero.Sleet.State.{Env, Sleet, on_conflict_graph, on_known_txs}
use zfx_subzero.Sleet.Ancestors.{map_err-ok}
use zfx_subzero.Sleet.Conflicts.{remove_one, remove_progeny, drop_vx}

length-leave_sets :
    (h : CellHash) (l : List CellHash) (cs : HashMap CellHash ConflictSet)
    → length (leave_sets h l cs) ≡ length cs
unfolding leave_sets
length-leave_sets h [] cs = refl
length-leave_sets h (x ∷ l) cs =
    length-leave_sets h l _ ∙ ground (arith, length-modify x (remove_from_conflict_set h) cs)

leave_sets-some :
    (h : CellHash) (l : List CellHash) (cs : HashMap CellHash ConflictSet) {set : ConflictSet}
    → HashMap.get h cs ≡ some set
    → HashMap.get h (leave_sets h l cs) ≡ some set
unfolding leave_sets
leave_sets-some h [] cs e = e
leave_sets-some h (x ∷ l) cs e =
    leave_sets-some h l _ (ground (arith, get-modify x (remove_from_conflict_set h) cs h, e))

-- Removing a cell takes a conflict set away.
remove_cell-length :
    (crypto : Crypto) (h : CellHash) (g : ConflictGraph)
    → (remove_cell crypto h g).1 ≡ ok tt
    → length (remove_cell crypto h g).0.cs < length g.cs
unfolding remove_cell forget
remove_cell-length crypto h g e =
    let (set, own, rest) =
      >>=-eq-ok (own_conflicts h)
        (λ set. remove_from_vertices crypto h >>= λ _. modify (forget h set)) g e in
    let (same, found) = own_conflicts-ok h g own in
    let (_, cleared, _) =
      >>=-eq-ok (remove_from_vertices crypto h) (λ _. modify (forget h set)) g (rw same at rest) in
    let kept = remove_from_vertices-cs crypto h g cleared in
    rw same (
      rw cleared (
        rw kept (
          omega (
            arith,
            length-remove_lt h (leave_sets h set.conflicts g.cs)
                (leave_sets-some h set.conflicts g.cs found),
            length-leave_sets h set.conflicts g.cs,
          ))))

module _ {env : Env} where
  remove_one-length :
      (h : TxHash) (s : Sleet env) {ch : List TxHash}
      → (remove_one h s).1 ≡ ok ch
      → length (remove_one h s).0.conflict_graph.cs < length s.conflict_graph.cs
  unfolding remove_one
  remove_one-length h s e =
      let (_, marked, rest) =
        >>=-eq-ok (on_known_txs (set_status env.sled h removed))
          (λ _. on_conflict_graph (remove_cell env.crypto h) >>= λ _. drop_vx h) s e in
      let (_, cut, _) =
        >>=-eq-ok (on_conflict_graph (remove_cell env.crypto h)) (λ _. drop_vx h) _ rest in
      rw marked (rw cut (remove_cell-length env.crypto h s.conflict_graph (map_err-ok graph _ cut)))

  -- A run of the loop over the progeny as the source has it, without fuel: from a queue and a state
  -- to what it ends with.
  pub data Drains : List TxHash → Sleet env → Sleet env × Result Error (Unit {0}) → Type 0 where
    stops : {s : Sleet env} → Drains [] s (s, ok tt)
    goes :
        {h : TxHash} {rest ch : List TxHash} {s : Sleet env}
        {out : Sleet env × Result Error (Unit {0})}
        → (remove_one h s).1 ≡ ok ch
        → Drains (rest ++ ch) (remove_one h s).0 out
        → Drains (h ∷ rest) s out
    fails :
        {h : TxHash} {rest : List TxHash} {s : Sleet env} {e : Error}
        → (remove_one h s).1 ≡ err e
        → Drains (h ∷ rest) s ((remove_one h s).0, err e)
    aborts :
        {h : TxHash} {rest : List TxHash} {s : Sleet env}
        → (remove_one h s).1 ≡ panic
        → Drains (h ∷ rest) s ((remove_one h s).0, panic)

  -- A round of the loop, by how it went.
  Drains-round :
      (h : TxHash) (rest : List TxHash) (s : Sleet env)
      (next : List TxHash → Sleet env → Sleet env × Result Error (Unit {0}))
      (r : Result Error (List TxHash))
      → (remove_one h s).1 ≡ r
      → ((ch : List TxHash)
          → r ≡ ok ch
          → Drains (rest ++ ch) (remove_one h s).0 (next ch (remove_one h s).0))
      → Drains (h ∷ rest) s (and_then r next (remove_one h s).0)
  Drains-round h rest s next (ok ch) e k = Drains.goes e (k ch refl)
  Drains-round h rest s next (err x) e k = Drains.fails e
  Drains-round h rest s next panic e k = Drains.aborts e

  -- The loop over the progeny ends: run as the source has it, without fuel, it has an end, which is
  -- the result for any fuel above the number of conflict sets.
  pub remove_progeny-Drains :
      (n : ℕ) (children : List TxHash) (s : Sleet env)
      → length s.conflict_graph.cs < n
      → Drains children s (remove_progeny n children s)
  unfolding remove_progeny
  remove_progeny-Drains zero children s h = absurd (omega arith)
  remove_progeny-Drains (suc n) [] s h = Drains.stops
  remove_progeny-Drains (suc n) (hash ∷ rest) s h =
      Drains-round hash rest s (λ ch. remove_progeny n (rest ++ ch)) (remove_one hash s).1 refl
        (λ ch e.
          remove_progeny-Drains n (rest ++ ch) (remove_one hash s).0
            (omega (arith, remove_one-length hash s e)))
