-- ===== src/Examples/Heights.antt =====
-- The accepted blocks of src/storage/block.rs, in a database that is a function.
use zfx_subzero.Prelude.{
  ℕ, ◌≡◌, refl, true, Option, none, some, if◌then◌else◌, [], ◌∷◌, ok, err, arith, ◌+◌,
}
use zfx_subzero.Hail.{Block, BlockHeight, BlockHash}
use zfx_subzero.Storage.{invalid_height}
use zfx_subzero.Storage.Keys.{Bytes, as_bytes, big_endian, bytes_eqb}
use zfx_subzero.Storage.Blocks.{
  Blocks, IsBelow, later, earlier, get_last_accepted, insert_block, is_known_block,
  accept_next_block, get_last_accepted-insert_block, accept_next_block-successor,
}

abbrev table : Blocks
table = record {
  Db = (Bytes → Option Block) × Option (Bytes × Block) × Option (Bytes × Block);
  read = λ db k. db.0 k;
  first = λ db. db.1;
  last = λ db. db.2;
  write =
      λ k b db. (λ j. if bytes_eqb k j then some b else db.0 j, earlier k b db.1, later k b db.2);
  read-write = λ k b db j. refl;
  first-write = λ k b db. refl;
  last-write = λ k b db. refl;
}

abbrev block_at : ℕ → Block
block_at h = record { predecessor = some 900; height = h; vrf_out = 0; cells = [] }

abbrev hash_of : Block → ℕ
hash_of b = 900 + b.height

-- Block 4 is stored.
abbrev stored : table.Db
stored =
    table.write (as_bytes (record { height = 4; hash = 904 })) (block_at 4) (λ _. none, none, none)

last_height : IsBelow table hash_of 5 stored
last_height k c h =
    (record { height = 4; hash = 904 }, ground arith, (omega arith, omega arith), omega arith)

get_last_accepted-insert_block_example :
    (get_last_accepted table (insert_block table hash_of (block_at 5) stored)
      ≡ ok (905, block_at 5))
    × (is_known_block table (insert_block table hash_of (block_at 5) stored) 5 905 ≡ true)
    × ((h : BlockHeight) (block_hash : BlockHash)
        → is_known_block table stored h block_hash ≡ true
        → is_known_block table (insert_block table hash_of (block_at 5) stored) h block_hash ≡ true)
get_last_accepted-insert_block_example =
    get_last_accepted-insert_block table hash_of (block_at 5) stored (omega arith, omega arith)
      last_height

accept_next_block-successor_example :
    accept_next_block table hash_of (block_at 5) stored ≡ (stored, err invalid_height)
accept_next_block-successor_example =
    accept_next_block-successor table hash_of (block_at 5) stored
      (record { height = 4; hash = 904 }) (block_at 4) refl refl (omega arith)

-- Height 258 in two bytes.
two_bytes : big_endian 2 258 ≡ 1 ∷ 2 ∷ []
unfolding big_endian
two_bytes = refl
