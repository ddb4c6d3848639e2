-- ===== src/Storage.antt =====
-- src/storage: what the program keeps in a database. What it takes from `sled` is a record: a
-- database is read and written by key, an encoding stands in one with its decoding. Failures of the
-- disk are left out.
pub mod Txs
pub mod Keys
pub mod Blocks
use zfx_subzero.Prelude.{ℕ, ◌≡◌, Option, none, some, if◌then◌else◌, eqb}

-- The errors that are not the database's own, of the encoding or of another part.
pub data Error : Type 0 where
  invalid_genesis undefined_genesis invalid_height invalid_predecessor invalid_last : Error
  invalid_cell invalid_tx invalid_hail_block : Error

pub record Sled (V : Type 0) : Type 1 where
  pub Db : Type 0
  pub read : Db → ℕ → Option V
  pub write : ℕ → V → Db → Db
  pub erase : ℕ → Db → Db
  pub read-write :
      (k : ℕ) (v : V) (db : Db) (j : ℕ)
      → read (write k v db) j ≡ (if eqb k j then some v else read db j)
  pub read-erase :
      (k : ℕ) (db : Db) (j : ℕ) → read (erase k db) j ≡ (if eqb k j then none else read db j)
