-- ===== src/Cell/Types.antt =====
-- src/cell: the data of a cell. A byte array of fixed size is the number that it spells, its first
-- byte the highest, so that the order of arrays is that of numbers; a `Vec<u8>` is a list.
use zfx_subzero.Prelude.{
  ℕ, ◌<◌, refl, ◌∙◌, Bool-cases, inl, inr, ◌+◌, ◌%◌, ◌^◌, ◌≡◌, Bool, true, false, ◌&&◌, ◌||◌, ◌↔◌,
  List, [], ◌∷◌, arith, eqb, ltb, leb, Eq, Result, if◌then◌else◌,
}
use zfx_subzero.Prelude.HashSet
use zfx_subzero.Prelude.HashSet.{HashSet}
use zfx_subzero.Alpha

abbrev pub Capacity : Type 0
Capacity = ℕ

abbrev pub PublicKeyHash : Type 0
PublicKeyHash = ℕ

abbrev pub CellHash : Type 0
CellHash = ℕ

abbrev pub CellId : Type 0
CellId = ℕ

abbrev pub Bytes : Type 0
Bytes = List ℕ

abbrev pub fee : Capacity
fee = 3

pub data CellType : Type 0 where
  coinbase transfer stake : CellType

-- `state` is the field `data` of the source.
pub record Output : Type 0 where
  pub capacity : Capacity
  pub cell_type : CellType
  pub state : Bytes
  pub lock : PublicKeyHash

pub record OutputIndex : Type 0 where
  pub cell_hash : CellHash
  pub index : ℕ

pub record UnlockScript : Type 0 where
  pub public_key : ℕ
  pub signature : ℕ

pub record Input : Type 0 where
  pub output_index : OutputIndex
  pub unlock : UnlockScript

pub record Cell : Type 0 where
  pub inputs : HashSet Input
  pub outputs : List Output

-- A key pair of ed25519.
pub record Keypair : Type 0 where
  pub public : ℕ
  pub secret : ℕ

-- What the program takes from `blake3`, `bincode` and `ed25519_dalek`. Writing plain data into a
-- vector does not fail, so an encoding stands in one function with the hash or the value made of it;
-- reading data back may fail.
pub record Crypto : Type 0 where
  pub hash_key : ℕ → PublicKeyHash
  pub hash_cell : Cell → CellHash
  pub hash_index : CellHash → ℕ → CellId
  pub sign : Keypair → CellId → ℕ
  pub encode_coinbase : Bytes
  pub encode_transfer : Bytes
  pub encode_stake : ℕ → Bytes
  pub decode_coinbase : Bytes → Result Alpha.Error (Unit {0})
  pub decode_transfer : Bytes → Result Alpha.Error (Unit {0})
  pub decode_stake : Bytes → Result Alpha.Error ℕ

pub input_beq : Input → Input → Bool
input_beq a b =
    eqb a.output_index.cell_hash b.output_index.cell_hash
    && eqb a.output_index.index b.output_index.index
    && eqb a.unlock.public_key b.unlock.public_key
    && eqb a.unlock.signature b.unlock.signature

pub input_beq_iff : (a b : Input) → (input_beq a b ≡ true) ↔ (a ≡ b)
unfolding input_beq
input_beq_iff a b = ground arith

instance abbrev pub input_eq : Eq Input
input_eq = record { eq = input_beq; eq_iff = input_beq_iff }

-- The derived order of outputs: by capacity, type, data and lock.
rank : CellType → ℕ
rank coinbase = 0
rank transfer = 1
rank stake = 2

abbrev lex : ℕ → ℕ → Bool → Bool
lex a b rest = ltb a b || eqb a b && rest

bytes_eqb : Bytes → Bytes → Bool
bytes_eqb [] [] = true
bytes_eqb [] (y ∷ ys) = false
bytes_eqb (x ∷ xs) [] = false
bytes_eqb (x ∷ xs) (y ∷ ys) = eqb x y && bytes_eqb xs ys

bytes_leb : Bytes → Bytes → Bool
bytes_leb [] ys = true
bytes_leb (x ∷ xs) [] = false
bytes_leb (x ∷ xs) (y ∷ ys) = lex x y (bytes_leb xs ys)

unfoldable pub output_leb : Output → Output → Bool
unfolding rank bytes_leb bytes_eqb
output_leb a b = lex a.capacity b.capacity (
    lex (rank a.cell_type) (rank b.cell_type)
      (if bytes_eqb a.state b.state then leb a.lock b.lock else bytes_leb a.state b.state))

-- `Vec::sort`: outputs that the order does not tell apart are equal, so any sort gives this list.
unfoldable pub insert_sorted : Output → List Output → List Output
unfolding output_leb
insert_sorted o [] = o ∷ []
insert_sorted o (x ∷ xs) =
    let rest = insert_sorted o xs in if output_leb o x then o ∷ x ∷ xs else x ∷ rest

unfoldable pub sort : List Output → List Output
unfolding insert_sorted
sort [] = []
sort (o ∷ os) = insert_sorted o (sort os)

-- `Outputs::new`
unfoldable pub new_outputs : List Output → List Output
unfolding sort
new_outputs outputs = sort outputs

-- `Inputs::new`
unfoldable pub new_inputs : List Input → HashSet Input
unfolding HashSet.extend
new_inputs inputs = HashSet.extend [] inputs

-- The loop of `Outputs::sum` and of `iter().sum()`, on a `u64`.
sum_from : Capacity → List Output → Capacity
sum_from total [] = total
sum_from total (o ∷ os) = sum_from ((total + o.capacity) % 2 ^ 64) os

unfoldable pub sum : List Output → Capacity
unfolding sum_from
sum outputs = sum_from 0 outputs

owned_by : PublicKeyHash → List Output → List Output
owned_by owner [] = []
owned_by owner (o ∷ os) =
    let rest = owned_by owner os in if eqb o.lock owner then o ∷ rest else rest

unfoldable pub outputs_of_owner : Cell → PublicKeyHash → List Output
unfolding owned_by
outputs_of_owner cell owner = owned_by owner cell.outputs

-- `Cell::sum`
unfoldable pub cell_sum : Cell → Capacity
unfolding sum
cell_sum cell = sum cell.outputs

-- The sum with no bound.
unfoldable pub total : List Output → ℕ
total [] = 0
total (o ∷ os) = o.capacity + total os

sum_from-eq-total :
    (acc : ℕ) (os : List Output) → acc + total os < 2 ^ 64 → sum_from acc os ≡ acc + total os
unfolding sum_from total
sum_from-eq-total acc [] h = omega arith
sum_from-eq-total acc (o ∷ os) h =
    let small : (acc + o.capacity) % 2 ^ 64 ≡ acc + o.capacity = omega arith in
    rw small (sum_from-eq-total (acc + o.capacity) os (omega arith) ∙ omega arith)

-- Below 2 ^ 64 the sum of a `u64` is the sum.
pub sum-eq-total : (os : List Output) → total os < 2 ^ 64 → sum os ≡ total os
unfolding sum
sum-eq-total os h = sum_from-eq-total 0 os (omega arith) ∙ omega arith

total-insert_sorted :
    (o : Output) (os : List Output) → total (insert_sorted o os) ≡ o.capacity + total os
unfolding insert_sorted total
total-insert_sorted o [] = refl
total-insert_sorted o (x ∷ xs) = elim (Bool-cases (output_leb o x)) [
  | inl first ↦ rw first
  | inr later ↦ rw later (omega (arith, total-insert_sorted o xs))
]

total-sort : (os : List Output) → total (sort os) ≡ total os
unfolding sort total
total-sort [] = refl
total-sort (o ∷ os) = total-insert_sorted o (sort os) ∙ omega (arith, total-sort os)

pub total-new_outputs : (os : List Output) → total (new_outputs os) ≡ total os
unfolding new_outputs
total-new_outputs os = total-sort os
