-- ===== src/Sleet/Finality.antt =====
-- src/sleet: the consensus on transactions. `is_accepted_tx` of src/sleet/sleet.rs, over the
-- conflict graph and the storage.
pub mod Votes
use zfx_subzero.Prelude.{
  ℕ, ◌≤◌, ◌≡◌, refl, Bool, true, false, ◌&&◌, ◌||◌, none, some, leb, if◌then◌else◌, Result, ok,
  panic, ◌>>=◌, nat_eq, arith, or_panic, unwrap_or,
}
use zfx_subzero.Prelude.HashMap
use zfx_subzero.Prelude.HashSet.{contains}
use zfx_subzero.Graph.ConflictGraph.{
  ConflictGraph, ConflictSet, is_singleton_set, insert_cell, beta2,
}
use zfx_subzero.Graph.ConflictGraph.Rivals.{rivals}
use zfx_subzero.Graph.ConflictGraph.Inheritance.{first_of, insert_cell-get_confidence}
use zfx_subzero.Graph.ConflictGraph.Votes.{get_confidence, is_singleton}
use zfx_subzero.Storage.Txs
use zfx_subzero.Storage.Txs.{KnownTxs}
use zfx_subzero.Sleet.{Error}
use zfx_subzero.Sleet.Tx.{TxHash, Tx, accepted}
use zfx_subzero.Cell.Types.{CellHash, Cell, Crypto}
use zfx_subzero.Cell.Ids.{from_inputs}

abbrev pub beta1 : ℕ
beta1 = 11

-- What storage says of a transaction; an error of storage counts as no.
unfoldable pub is_accepted : KnownTxs → TxHash → Bool
unfolding Txs.is_accepted_tx
is_accepted known tx_hash = unwrap_or false (Txs.is_accepted_tx known tx_hash)

unfoldable pub cannot_be_accepted : KnownTxs → TxHash → Bool
unfolding Txs.cannot_be_accepted
cannot_be_accepted known tx_hash = unwrap_or false (Txs.cannot_be_accepted known tx_hash)

unfoldable pub is_accepted_tx : KnownTxs → ConflictGraph → TxHash → Result Error Bool
unfolding is_accepted cannot_be_accepted
is_accepted_tx known graph tx_hash =
    let decided : Result Error Bool = do
      confidence ← or_panic (get_confidence graph tx_hash)
      single ← or_panic (is_singleton graph tx_hash)
      ok (if single && leb beta1 confidence then true else leb beta2 confidence)
    in if is_accepted known tx_hash
      then ok true
      else if cannot_be_accepted known tx_hash
      then ok false
      else decided

-- The rule of finality: a transaction that storage does not decide is accepted if its confidence is
-- at least `beta1` and it has no rival, or at least `beta2`; one without a conflict set is a panic.
pub is_accepted_tx-rule :
    (known : KnownTxs) (graph : ConflictGraph) (tx_hash : TxHash)
    → is_accepted known tx_hash ≡ false
    → cannot_be_accepted known tx_hash ≡ false
    → is_accepted_tx known graph tx_hash ≡ elim (HashMap.get tx_hash graph.cs) [
      | none ↦ panic
      | some set ↦ ok (leb beta2 set.cnt || leb beta1 set.cnt && is_singleton_set set)
    ]
unfolding is_accepted_tx get_confidence is_singleton
is_accepted_tx-rule known graph tx_hash a c = ground arith

confident :
    (known : KnownTxs) (graph : ConflictGraph) (h : TxHash) (cnt : ℕ)
    → cannot_be_accepted known h ≡ false
    → get_confidence graph h ≡ ok cnt
    → beta2 ≤ cnt
    → is_accepted_tx known graph h ≡ ok true
unfolding is_accepted_tx get_confidence is_singleton
confident known graph h cnt allowed e sure = ground arith

-- A transaction that is inserted with success, is not in the insertion order, conflicts there first
-- with a cell of confidence at least `beta2`, and is not ruled out by storage, is accepted at once,
-- without a vote for it.
pub is_accepted_tx-insert_cell :
    (crypto : Crypto) (known : KnownTxs) (cell : Cell) (graph : ConflictGraph) (first : CellHash)
    (set : ConflictSet)
    → contains graph.insertion_order (crypto.hash_cell cell) ≡ false
    → first_of (rivals graph.vertices (from_inputs crypto cell.inputs)) graph.insertion_order
      ≡ some first
    → HashMap.get first graph.cs ≡ some set
    → beta2 ≤ set.cnt
    → cannot_be_accepted known (crypto.hash_cell cell) ≡ false
    → (insert_cell crypto cell graph).1 ≡ ok tt
    → is_accepted_tx known (insert_cell crypto cell graph).0 (crypto.hash_cell cell) ≡ ok true
is_accepted_tx-insert_cell crypto known cell graph first set fresh earliest got sure allowed e =
    confident known (insert_cell crypto cell graph).0 (crypto.hash_cell cell) set.cnt allowed
      (insert_cell-get_confidence crypto cell graph first set fresh earliest got e).0 sure

pub is_accepted-local :
    (known known' : KnownTxs) (h : TxHash)
    → known' h ≡ known h
    → is_accepted known' h ≡ is_accepted known h
unfolding is_accepted Txs.is_accepted_tx
is_accepted-local known known' h e = ground (arith, e)

cannot_be_accepted-local :
    (known known' : KnownTxs) (h : TxHash)
    → known' h ≡ known h
    → cannot_be_accepted known' h ≡ cannot_be_accepted known h
unfolding cannot_be_accepted Txs.cannot_be_accepted
cannot_be_accepted-local known known' h e = ground (arith, e)

pub is_accepted-marked :
    (known : KnownTxs) (h : TxHash) (tx : Tx)
    → known h ≡ some (record tx { status = accepted })
    → is_accepted known h ≡ true
unfolding is_accepted Txs.is_accepted_tx
is_accepted-marked known h tx e = ground (arith, e)

-- The answer depends on what storage says of this transaction alone.
pub is_accepted_tx-local :
    (known known' : KnownTxs) (graph : ConflictGraph) (h : TxHash)
    → known' h ≡ known h
    → is_accepted_tx known' graph h ≡ is_accepted_tx known graph h
unfolding is_accepted_tx
is_accepted_tx-local known known' graph h e =
    rw (is_accepted-local known known' h e, cannot_be_accepted-local known known' h e) refl

pub is_accepted_tx-stored :
    (known : KnownTxs) (graph : ConflictGraph) (h : TxHash)
    → is_accepted known h ≡ true
    → is_accepted_tx known graph h ≡ ok true
unfolding is_accepted_tx
is_accepted_tx-stored known graph h e = rw e refl
