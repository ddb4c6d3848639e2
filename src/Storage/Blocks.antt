-- ===== src/Storage/Blocks.antt =====
-- src/storage/block.rs: the accepted blocks in the database, by height and hash.
use zfx_subzero.Prelude.{
  ◌+◌, ◌-◌, ◌%◌, ◌^◌, ◌<◌, Option-cases, Bool-cases, inl, inr, ◌≡◌, refl, Bool, true, false, not,
  Option, none, some, if◌then◌else◌, eqb, arith, Result, ok, err, unwrap, ◌>>=◌, ap, ◌∙◌,
}
use zfx_subzero.Prelude.HashMap.{is_some}
use zfx_subzero.Prelude.Action.{Action}
use zfx_subzero.Storage.{
  Error, invalid_genesis, undefined_genesis, invalid_height, invalid_predecessor, invalid_last,
}
use zfx_subzero.Storage.Keys.{
  Bytes, Key, Fits, as_bytes, read_from, bytes_eqb, bytes_ltb, as_bytes-order, read_from-height,
}
use zfx_subzero.Hail.{Block, BlockHash, BlockHeight}

abbrev pub later : Bytes → Block → Option (Bytes × Block) → Option (Bytes × Block)
later k b none = some (k, b)
later k b (some (j, c)) = if bytes_ltb k j then some (j, c) else some (k, b)

abbrev pub earlier : Bytes → Block → Option (Bytes × Block) → Option (Bytes × Block)
earlier k b none = some (k, b)
earlier k b (some (j, c)) = if bytes_ltb j k then some (j, c) else some (k, b)

-- What is taken from `sled`, whose keys are byte strings: its first entry has the least key, its last
-- the greatest.
pub record Blocks : Type 1 where
  pub Db : Type 0
  pub read : Db → Bytes → Option Block
  pub first : Db → Option (Bytes × Block)
  pub last : Db → Option (Bytes × Block)
  pub write : Bytes → Block → Db → Db
  pub read-write :
      (k : Bytes) (b : Block) (db : Db) (j : Bytes)
      → read (write k b db) j ≡ (if bytes_eqb k j then some b else read db j)
  pub first-write :
      (k : Bytes) (b : Block) (db : Db) → first (write k b db) ≡ earlier k b (first db)
  pub last-write : (k : Bytes) (b : Block) (db : Db) → last (write k b db) ≡ later k b (last db)

-- The hash of an entry, read from its key, and its block.
abbrev pub hash_and_block : Error → Option (Bytes × Block) → Result Error (BlockHash × Block)
hash_and_block e none = err e
hash_and_block e (some (k, b)) = unwrap (read_from k) >>= λ key. ok (key.hash, b)

module _ (blocks : Blocks) where
  unfoldable pub exists_genesis : blocks.Db → Bool
  exists_genesis db = is_some (blocks.first db)

  unfoldable pub get_genesis : blocks.Db → Result Error (BlockHash × Block)
  get_genesis db = hash_and_block invalid_genesis (blocks.first db)

  unfoldable pub get_last_accepted : blocks.Db → Result Error (BlockHash × Block)
  get_last_accepted db = hash_and_block invalid_last (blocks.last db)

  unfoldable pub get_last_accepted_hash : blocks.Db → Result Error BlockHash
  get_last_accepted_hash db = elim (blocks.last db) [
    | none ↦ err invalid_last
    | some entry ↦ unwrap (read_from entry.0) >>= λ key. ok key.hash
  ]

  unfoldable pub is_known_block : blocks.Db → BlockHeight → BlockHash → Bool
  is_known_block db h block_hash =
      is_some (blocks.read db (as_bytes (record { height = h; hash = block_hash })))

module _ (blocks : Blocks) (hash_block : Block → BlockHash) where
  abbrev key : Block → Key
  key b = record { height = b.height; hash = hash_block b }

  unfoldable pub insert_block : Block → blocks.Db → blocks.Db
  insert_block b db = blocks.write (as_bytes (key b)) b db

  unfoldable pub accept_genesis : Block → blocks.Db → blocks.Db × BlockHash
  accept_genesis b db = (blocks.write (as_bytes (key b)) b db, hash_block b)

  abbrev is_after : Option BlockHash → BlockHash → Bool
  is_after none hash = false
  is_after (some p) hash = eqb p hash

  -- After the block with the key. On a `u64` 0 - 1 is 2 ^ 64 - 1.
  abbrev accept_after : Block → blocks.Db → Key → blocks.Db × Result Error BlockHash
  accept_after b db k =
      if not (eqb b.height ((k.height + 2 ^ 64 - 1) % 2 ^ 64))
      then (db, err invalid_height)
      else if not (is_after b.predecessor k.hash)
      then (db, err invalid_predecessor)
      else (blocks.write (as_bytes (key b)) b db, ok (hash_block b))

  unfoldable pub accept_next_block : Block → Action blocks.Db Error BlockHash
  accept_next_block b db = elim (blocks.last db) [
    | none ↦ (db, err undefined_genesis)
    | some entry ↦ elim (read_from entry.0) [
      | none ↦ (db, err invalid_last)
      | some k ↦ accept_after b db k
    ]
  ]

  -- The last key of the database, if there is one, is that of a lower height.
  abbrev pub IsBelow : BlockHeight → blocks.Db → Type 0
  IsBelow height db =
      (k : Bytes) (c : Block)
      → blocks.last db ≡ some (k, c)
      → (j : Key) × (k ≡ as_bytes j) × Fits j × (j.height < height)

  last-insert_block :
      (b : Block) (db : blocks.Db)
      → Fits (key b)
      → IsBelow b.height db
      → blocks.last (insert_block b db) ≡ some (as_bytes (key b), b)
  unfolding insert_block
  last-insert_block b db fits below = elim (Option-cases (blocks.last db)) [
    | inl empty ↦ blocks.last-write (as_bytes (key b)) b db ∙ ap (later (as_bytes (key b)) b) empty
    | inr (entry, found) ↦
        let (j, written, fits_j, lower) = below entry.0 entry.1 found in
        let (_, _, order) = as_bytes-order (key b) j fits fits_j in
        let after : bytes_ltb (as_bytes (key b)) entry.0 ≡ false =
          rw written (order ∙ ground arith) in
        blocks.last-write (as_bytes (key b)) b db
        ∙ ap (later (as_bytes (key b)) b) found
        ∙ rw after refl
  ]

  -- If the height and the hash of a block fit the bytes of its key, and the last key of the database
  -- is one of a lower height, then the block, once stored, is the last accepted one, with its hash,
  -- and is known at its height, and what was known stays known.
  pub get_last_accepted-insert_block :
      (b : Block) (db : blocks.Db)
      → Fits (key b)
      → IsBelow b.height db
      → (get_last_accepted blocks (insert_block b db) ≡ ok (hash_block b, b))
        × (is_known_block blocks (insert_block b db) b.height (hash_block b) ≡ true)
        × ((h : BlockHeight) (block_hash : BlockHash)
            → is_known_block blocks db h block_hash ≡ true
            → is_known_block blocks (insert_block b db) h block_hash ≡ true)
  unfolding get_last_accepted insert_block is_known_block
  get_last_accepted-insert_block b db fits below =
      let (back, same, _) = as_bytes-order (key b) (key b) fits fits in
      let found : bytes_eqb (as_bytes (key b)) (as_bytes (key b)) ≡ true = same ∙ ground arith in
      (
        ap (hash_and_block invalid_last) (last-insert_block b db fits below) ∙ rw back refl,
        rw (blocks.read-write (as_bytes (key b)) b db (as_bytes (key b)), found) refl,
        λ h block_hash known.
            let k = as_bytes (record { height = h; hash = block_hash }) in
            elim (Bool-cases (bytes_eqb (as_bytes (key b)) k)) [
              | inl same ↦ rw (blocks.read-write (as_bytes (key b)) b db k, same) refl
              | inr other ↦ rw (blocks.read-write (as_bytes (key b)) b db k, other) known
            ],
      )

  -- A block one above the last stored one is refused with InvalidHeight, and nothing is stored.
  pub accept_next_block-successor :
      (b : Block) (db : blocks.Db) (k : Key) (c : Block)
      → blocks.last db ≡ some (as_bytes k, c)
      → b.height ≡ k.height + 1
      → b.height < 2 ^ 64
      → accept_next_block b db ≡ (db, err invalid_height)
  unfolding accept_next_block
  accept_next_block-successor b db k c found next small =
      let (read, back, height) = read_from-height k (omega arith) in
      let other : eqb b.height ((read.height + 2 ^ 64 - 1) % 2 ^ 64) ≡ false = ground arith in
      rw (found, back, other, accept_next_block) refl
