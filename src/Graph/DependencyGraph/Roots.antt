-- ===== src/Graph/DependencyGraph/Roots.antt =====
-- src/graph/dependency_graph.rs: which vertices are roots after `insert`.
use zfx_subzero.Prelude.{
  ◌≡◌, refl, ap, sym, subst, true, false, List, [], ◌∷◌, ◌++◌, OnOk, nat_eq, arith, Bool-cases, inl,
  inr, All-append, All-map,
}
use zfx_subzero.Prelude.HashMap.{is_some, keys}
use zfx_subzero.Prelude.HashSet
use zfx_subzero.Cell.Types.{Cell, Crypto}
use zfx_subzero.Cell.Ids.{CellIds, from_inputs, from_outputs, intersects_with}
use zfx_subzero.Cell.Maps.{IdsMap, same_ids, same_ids_refl, same_ids-contained, get}
use zfx_subzero.Cell.Maps
use zfx_subzero.Graph.DependencyGraph.{DependencyGraph, insert, keep_roots, has_inbound_edges}
use zfx_subzero.Graph.DependencyGraph.Order.{IsFree}
use zfx_subzero.Graph.DependencyGraph.Complete.{ListsFree, listed, listed-append}

keys-insert :
    (k : CellIds) (edges : CellIds) (dh : IdsMap CellIds)
    → is_some (get k dh) ≡ false
    → keys (Maps.insert k edges dh) ≡ keys dh ++ k ∷ []
unfolding get Maps.insert
keys-insert k edges [] new = refl
keys-insert k edges ((j, w) ∷ dh) new = elim (Bool-cases (same_ids j k)) [
  | inl same ↦ absurd (ground arith)
  | inr other ↦ rw other (ap (λ ks. j ∷ ks) (keys-insert k edges dh (ground arith)))
]

-- A vertex that is free once an entry is added was free before, and the entry does not spend from it.
IsFree-old :
    (k edges v : CellIds) (dh : IdsMap CellIds)
    → is_some (get k dh) ≡ false
    → IsFree (Maps.insert k edges dh) v
    → IsFree dh v × (intersects_with v edges ≡ false)
unfolding has_inbound_edges get Maps.insert
IsFree-old k edges v [] new h = ground arith
IsFree-old k edges v ((j, w) ∷ dh) new h = elim (Bool-cases (same_ids j k)) [
  | inl same ↦ absurd (ground arith)
  | inr other ↦
      let (free, apart) = IsFree-old k edges v dh (ground arith) (ground arith) in
      (ground arith, apart)
]

-- Sets that are equal meet the same sets.
intersects-same_ids :
    (consumed r v : CellIds)
    → same_ids r v ≡ true
    → intersects_with consumed r ≡ true
    → intersects_with v consumed ≡ true
unfolding intersects_with
intersects-same_ids consumed r v same touches =
    let (x, x∈consumed, x∈r) = HashSet.is_disjoint-witness consumed r (ground arith) in
    ground (
      arith,
      HashSet.is_disjoint-shared v consumed x (same_ids-contained r v x same x∈r) x∈consumed,
    )

keep_roots-listed :
    (consumed v : CellIds) (roots : List CellIds)
    → intersects_with v consumed ≡ false
    → listed v roots ≡ true
    → listed v (keep_roots consumed roots) ≡ true
unfolding keep_roots listed
keep_roots-listed consumed v [] apart h = absurd (cc h)
keep_roots-listed consumed v (r ∷ roots) apart h =
    ground (arith, intersects-same_ids consumed r v, keep_roots-listed consumed v roots)

listed-last : (v : CellIds) (xs : List CellIds) → listed v (xs ++ v ∷ []) ≡ true
unfolding listed
listed-last v xs = ground (arith, listed-append v xs (v ∷ []), same_ids_refl v)

-- The roots are all the free vertices, also after an insertion.
pub insert-ListsFree :
    (crypto : Crypto) (cell : Cell) (g : DependencyGraph)
    → ListsFree (keys g.dh) g.dh g.roots
    → OnOk (λ h. ListsFree (keys h.dh) h.dh h.roots) (insert crypto cell g)
unfolding insert
insert-ListsFree crypto cell g h =
    let produced = from_outputs crypto (crypto.hash_cell cell) cell.outputs in
    let consumed = from_inputs crypto cell.inputs in
    let dh = Maps.insert produced consumed g.dh in
    let kept = keep_roots consumed g.roots in
    elim (Bool-cases (is_some (get produced g.dh))) [
      | inl twice ↦ rw twice tt
      | inr fresh ↦
          let old : ListsFree (keys g.dh) dh kept =
            All-map
              (λ v before free.
                let (free_before, apart) = IsFree-old produced consumed v g.dh fresh free in
                keep_roots-listed consumed v g.roots apart (before free_before))
              (keys g.dh) h in
          elim (Bool-cases (has_inbound_edges dh produced)) [
            | inl spent ↦
                rw (fresh, spent)
                  (subst (λ ks. ListsFree ks dh kept)
                    (sym (keys-insert produced consumed g.dh fresh))
                    (All-append (λ v. IsFree dh v → listed v kept ≡ true) (keys g.dh)
                      (produced ∷ []) old (λ free. absurd (ground arith), tt)))
            | inr apart ↦
                rw (fresh, apart)
                  (subst (λ ks. ListsFree ks dh (kept ++ produced ∷ []))
                    (sym (keys-insert produced consumed g.dh fresh))
                    (All-append (λ v. IsFree dh v → listed v (kept ++ produced ∷ []) ≡ true)
                      (keys g.dh) (produced ∷ [])
                      (All-map
                        (λ v before free.
                          let there = before free in
                          ground (arith, listed-append v kept (produced ∷ [])))
                        (keys g.dh) old)
                      (λ free. listed-last produced kept, tt)))
          ]
    ]
