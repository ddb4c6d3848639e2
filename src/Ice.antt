-- ===== src/Ice.antt =====
-- src/ice: liveness of peers by reservoir sampling. The constants of src/ice/constants.rs, and the
-- data of src/ice/choice.rs and src/ice/query.rs. A `PeerId` (`Id` in the source) and a socket address are numbers.
pub mod Quorum
pub mod Reservoir
use zfx_subzero.Prelude.{ℕ, ◌+◌, ◌/◌, ◌≡◌, ◌↔◌, Bool, true, false, arith}

abbrev pub PeerId : Type 0
PeerId = ℕ

abbrev pub SocketAddr : Type 0
SocketAddr = ℕ

-- `K` and `BETA1`; `ALPHA` is a half, so that `(K as f64 * ALPHA).ceil()` is half of `K`, rounded up.
abbrev pub k : ℕ
k = 2

abbrev pub beta1 : ℕ
beta1 = 3

abbrev pub threshold : ℕ
threshold = (k + 1) / 2

pub data Choice : Type 0 where
  live faulty : Choice

pub choice_beq : Choice → Choice → Bool
choice_beq live live = true
choice_beq live faulty = false
choice_beq faulty live = false
choice_beq faulty faulty = true

pub choice_beq_iff : (a b : Choice) → (choice_beq a b ≡ true) ↔ (a ≡ b)
unfolding choice_beq
choice_beq_iff a b = ground arith

pub record Outcome : Type 0 where
  pub peer_id : PeerId
  pub choice : Choice
