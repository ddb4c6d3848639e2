-- ===== src/Storage/Keys.antt =====
-- src/storage/block.rs: the keys of the blocks, as they are written: the height in eight bytes and the
-- hash in thirty-two, each the highest byte first. `sled` orders keys by their bytes.
use native.Mathlib.Nat.{pow-suc}
use zfx_subzero.Prelude.{
  ℕ, zero, suc, ◌+◌, ◌*◌, ◌/◌, ◌%◌, ◌^◌, ◌<◌, ◌≡◌, refl, ap, ◌∙◌, Bool, true, false, ◌&&◌, ◌||◌,
  Option, none, some, List, [], ◌∷◌, ◌++◌, length, length-append, eqb, ltb, arith, if◌then◌else◌,
  take, sym,
}
use zfx_subzero.Hail.{BlockHash, BlockHeight}

abbrev pub Bytes : Type 0
Bytes = List ℕ

unfoldable pub bytes_eqb : Bytes → Bytes → Bool
bytes_eqb [] [] = true
bytes_eqb [] (y ∷ ys) = false
bytes_eqb (x ∷ xs) [] = false
bytes_eqb (x ∷ xs) (y ∷ ys) = eqb x y && bytes_eqb xs ys

-- The order of byte strings.
unfoldable pub bytes_ltb : Bytes → Bytes → Bool
bytes_ltb [] [] = false
bytes_ltb [] (y ∷ ys) = true
bytes_ltb (x ∷ xs) [] = false
bytes_ltb (x ∷ xs) (y ∷ ys) = ltb x y || eqb x y && bytes_ltb xs ys

pub record Key : Type 0 where
  pub height : BlockHeight
  pub hash : BlockHash

-- `U64<BigEndian>`, and a byte array: the number in so many bytes, the highest first.
unfoldable pub big_endian : ℕ → ℕ → Bytes
big_endian zero x = []
big_endian (suc n) x = big_endian n (x / 256) ++ x % 256 ∷ []

unfoldable pub number : ℕ → Bytes → ℕ
number acc [] = acc
number acc (b ∷ bytes) = number (acc * 256 + b) bytes

unfoldable pub as_bytes : Key → Bytes
as_bytes k = big_endian 8 k.height ++ big_endian 32 k.hash

unfoldable pub drop : ℕ → Bytes → Bytes
drop zero bytes = bytes
drop (suc n) [] = []
drop (suc n) (b ∷ bytes) = drop n bytes

-- `Key::read_from`: nothing unless there are as many bytes as the key has.
unfoldable pub read_from : Bytes → Option Key
read_from bytes =
    if eqb (length bytes) 40
    then some (record { height = number 0 (take 8 bytes); hash = number 0 (drop 8 bytes) })
    else none

-- A key whose parts fit their bytes.
abbrev pub Fits : Key → Type 0
Fits k = (k.height < 2 ^ 64) × (k.hash < 2 ^ 256)

abbrev pub key_beq : Key → Key → Bool
key_beq a b = eqb a.height b.height && eqb a.hash b.hash

abbrev pub key_ltb : Key → Key → Bool
key_ltb a b = ltb a.height b.height || eqb a.height b.height && ltb a.hash b.hash

length-big_endian : (n x : ℕ) → length (big_endian n x) ≡ n
unfolding big_endian
length-big_endian zero x = refl
length-big_endian (suc n) x =
    length-append (big_endian n (x / 256)) (x % 256 ∷ [])
    ∙ omega (arith, length-big_endian n (x / 256))

number-append : (acc : ℕ) (xs ys : Bytes) → number acc (xs ++ ys) ≡ number (number acc xs) ys
unfolding number
number-append acc [] ys = refl
number-append acc (x ∷ xs) ys = number-append (acc * 256 + x) xs ys

power_suc : (n : ℕ) → 256 ^ suc n ≡ 256 * 256 ^ n
power_suc n = pow-suc 256 n ∙ omega arith

number-big_endian : (n x : ℕ) → x < 256 ^ n → number 0 (big_endian n x) ≡ x
unfolding number big_endian
number-big_endian zero x h = omega arith
number-big_endian (suc n) x h =
    number-append 0 (big_endian n (x / 256)) (x % 256 ∷ [])
    ∙ omega (arith, number-big_endian n (x / 256) (omega (arith, power_suc n)))

take-append : (n : ℕ) (xs ys : Bytes) → length xs ≡ n → take n (xs ++ ys) ≡ xs
take-append zero [] ys h = refl
take-append zero (x ∷ xs) ys h = absurd (omega arith)
take-append (suc n) [] ys h = absurd (omega arith)
take-append (suc n) (x ∷ xs) ys h = ap (λ l. x ∷ l) (take-append n xs ys (omega arith))

drop-append : (n : ℕ) (xs ys : Bytes) → length xs ≡ n → drop n (xs ++ ys) ≡ ys
unfolding drop
drop-append zero [] ys h = refl
drop-append zero (x ∷ xs) ys h = absurd (omega arith)
drop-append (suc n) [] ys h = absurd (omega arith)
drop-append (suc n) (x ∷ xs) ys h = drop-append n xs ys (omega arith)

-- Strings that start with parts of the same length compare by these first.
bytes_eqb-append :
    (xs ys s t : Bytes)
    → length xs ≡ length ys
    → bytes_eqb (xs ++ s) (ys ++ t) ≡ (bytes_eqb xs ys && bytes_eqb s t)
unfolding bytes_eqb
bytes_eqb-append [] [] s t h = refl
bytes_eqb-append [] (y ∷ ys) s t h = absurd (omega arith)
bytes_eqb-append (x ∷ xs) [] s t h = absurd (omega arith)
bytes_eqb-append (x ∷ xs) (y ∷ ys) s t h =
    let rest = bytes_eqb-append xs ys s t (omega arith) in ground (arith, rest)

bytes_ltb-append :
    (xs ys s t : Bytes)
    → length xs ≡ length ys
    → bytes_ltb (xs ++ s) (ys ++ t) ≡ (bytes_ltb xs ys || bytes_eqb xs ys && bytes_ltb s t)
unfolding bytes_ltb bytes_eqb
bytes_ltb-append [] [] s t h = refl
bytes_ltb-append [] (y ∷ ys) s t h = absurd (omega arith)
bytes_ltb-append (x ∷ xs) [] s t h = absurd (omega arith)
bytes_ltb-append (x ∷ xs) (y ∷ ys) s t h =
    let rest = bytes_ltb-append xs ys s t (omega arith) in ground (arith, rest)

big_endian-order :
    (n x y : ℕ)
    → x < 256 ^ n
    → y < 256 ^ n
    → (bytes_eqb (big_endian n x) (big_endian n y) ≡ eqb x y)
      × (bytes_ltb (big_endian n x) (big_endian n y) ≡ ltb x y)
unfolding bytes_eqb bytes_ltb big_endian
big_endian-order zero x y h k = (ground arith, ground arith)
big_endian-order (suc n) x y h k =
    let same = length-big_endian n (x / 256) ∙ sym (length-big_endian n (y / 256)) in
    let (eq, lt) =
      big_endian-order n (x / 256) (y / 256) (omega (arith, power_suc n))
        (omega (arith, power_suc n)) in
    (
      bytes_eqb-append (big_endian n (x / 256)) (big_endian n (y / 256)) _ _ same
          ∙ rw eq (ground arith),
      bytes_ltb-append (big_endian n (x / 256)) (big_endian n (y / 256)) _ _ same
          ∙ rw (eq, lt) (ground arith),
    )

-- A key is read back with its height, if that fits eight bytes.
pub read_from-as_bytes :
    (k : Key)
    → read_from (as_bytes k)
      ≡ some (record {
        height = number 0 (big_endian 8 k.height);
        hash = number 0 (big_endian 32 k.hash);
      })
unfolding read_from as_bytes
read_from-as_bytes k =
    let height = big_endian 8 k.height in
    let hash = big_endian 32 k.hash in
    let full : length (height ++ hash) ≡ 40 =
      length-append height hash
      ∙ omega (arith, length-big_endian 8 k.height, length-big_endian 32 k.hash) in
    rw
      (
        full,
        take-append 8 height hash (length-big_endian 8 k.height),
        drop-append 8 height hash (length-big_endian 8 k.height),
      )
      refl

pub read_from-height :
    (k : Key)
    → k.height < 2 ^ 64
    → (read : Key) × (read_from (as_bytes k) ≡ some read) × (read.height ≡ k.height)
read_from-height k h = (
  record { height = number 0 (big_endian 8 k.height); hash = number 0 (big_endian 32 k.hash) },
  read_from-as_bytes k,
  number-big_endian 8 k.height h,
)

-- Keys that fit their bytes are read back as they were written, their bytes are equal exactly if they
-- are, and the order of their bytes is that of the heights, and of the hashes at the same height.
pub as_bytes-order :
    (a b : Key)
    → Fits a
    → Fits b
    → (read_from (as_bytes a) ≡ some a)
      × (bytes_eqb (as_bytes a) (as_bytes b) ≡ key_beq a b)
      × (bytes_ltb (as_bytes a) (as_bytes b) ≡ key_ltb a b)
unfolding as_bytes read_from
as_bytes-order a b ha hb =
    let height_a = big_endian 8 a.height in
    let height_b = big_endian 8 b.height in
    let hash_a = big_endian 32 a.hash in
    let hash_b = big_endian 32 b.hash in
    let same = length-big_endian 8 a.height ∙ sym (length-big_endian 8 b.height) in
    let (same_height, less_height) = big_endian-order 8 a.height b.height ha.0 hb.0 in
    let (same_hash, less_hash) = big_endian-order 32 a.hash b.hash ha.1 hb.1 in
    (
      read_from-as_bytes a
          ∙ rw (number-big_endian 8 a.height ha.0, number-big_endian 32 a.hash ha.1) refl,
      bytes_eqb-append height_a height_b hash_a hash_b same ∙ rw (same_height, same_hash) refl,
      bytes_ltb-append height_a height_b hash_a hash_b same
          ∙ rw (same_height, less_height, less_hash) refl,
    )
