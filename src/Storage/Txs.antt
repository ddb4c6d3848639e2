-- ===== src/Storage/Txs.antt =====
-- src/storage/tx.rs: the transactions in the database.
use zfx_subzero.Prelude.{
  ◌≡◌, refl, Bool, ◌||◌, Option, none, some, if◌then◌else◌, eqb, eqb_iff, arith, inl, inr,
  Option-cases, Result, ok, err, ◌>>=◌, nat_eq,
}
use zfx_subzero.Prelude.HashMap.{is_some}
use zfx_subzero.Prelude.Action.{Action}
use zfx_subzero.Storage.{Error, invalid_tx, Sled}
use zfx_subzero.Sleet.Tx.{TxHash, TxStatus, Tx, accepted, removed, rejected, status_beq, hash}
use zfx_subzero.Cell.Types.{Crypto}

-- What is read from a database.
abbrev pub KnownTxs : Type 0
KnownTxs = TxHash → Option Tx

unfoldable pub is_known_tx : KnownTxs → TxHash → Bool
is_known_tx known tx_hash = is_some (known tx_hash)

unfoldable pub get_tx : KnownTxs → TxHash → Result Error (TxHash × Tx)
get_tx known tx_hash = elim (known tx_hash) [ some tx ↦ ok (tx_hash, tx) | none ↦ err invalid_tx ]

unfoldable pub is_accepted_tx : KnownTxs → TxHash → Result Error Bool
is_accepted_tx known tx_hash = elim (known tx_hash) [
  | some tx ↦ ok (status_beq tx.status accepted)
  | none ↦ err invalid_tx
]

unfoldable pub is_removed_tx : KnownTxs → TxHash → Result Error Bool
is_removed_tx known tx_hash = elim (known tx_hash) [
  | some tx ↦ ok (status_beq tx.status removed)
  | none ↦ err invalid_tx
]

unfoldable pub cannot_be_accepted : KnownTxs → TxHash → Result Error Bool
cannot_be_accepted known tx_hash = elim (known tx_hash) [
  | some tx ↦ ok (status_beq tx.status removed || status_beq tx.status rejected)
  | none ↦ err invalid_tx
]

module _ (sled : Sled Tx) where
  unfoldable pub insert_tx : Crypto → Tx → sled.Db → sled.Db
  insert_tx crypto tx db = sled.write (hash crypto tx) tx db

  -- `sled` writes the function's value, and removes the key if there is none.
  unfoldable pub update_and_fetch : TxHash → (Option Tx → Option Tx) → Action sled.Db Error Tx
  update_and_fetch tx_hash f db = elim (f (sled.read db tx_hash)) [
    | some tx ↦ (sled.write tx_hash tx db, ok tx)
    | none ↦ (sled.erase tx_hash db, err invalid_tx)
  ]

  abbrev with_status : TxStatus → Option Tx → Option Tx
  with_status status none = none
  with_status status (some tx) = some (record tx { status = status })

  unfoldable pub set_status : TxHash → TxStatus → Action sled.Db Error (Unit {0})
  unfolding update_and_fetch
  set_status tx_hash status db =
      let (db', r) = update_and_fetch tx_hash (with_status status) db in (db', r >>= λ tx. ok tt)

  -- The status of a stored transaction is changed, and nothing else; for one that is not stored it
  -- is an error, and nothing changes.
  pub read-set_status :
      (tx_hash : TxHash) (status : TxStatus) (db : sled.Db) (j : TxHash)
      → sled.read (set_status tx_hash status db).0 j
        ≡ (if eqb tx_hash j then with_status status (sled.read db tx_hash) else sled.read db j)
  unfolding set_status update_and_fetch
  read-set_status tx_hash status db j = elim (Option-cases (sled.read db tx_hash)) [
    | inl absent ↦
        rw (absent, update_and_fetch)
          (ground (arith, sled.read-erase tx_hash db j, eqb_iff tx_hash j))
    | inr (tx, found) ↦
        rw (found, update_and_fetch) (sled.read-write tx_hash (record tx { status = status }) db j)
  ]

  pub set_status-ok :
      (tx_hash : TxHash) (status : TxStatus) (db : sled.Db) {tx : Tx}
      → sled.read db tx_hash ≡ some tx
      → (set_status tx_hash status db).1 ≡ ok tt
  unfolding set_status update_and_fetch
  set_status-ok tx_hash status db found = rw (set_status, update_and_fetch, found) refl
