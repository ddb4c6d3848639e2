-- ===== src/Hail.antt =====
-- src/hail: the consensus on blocks. The data of blocks and vertices, and the errors.
pub mod ConflictMap
pub mod Actor
use Prim.Native.String.{String}
use zfx_subzero.Prelude.{ℕ, ◌≡◌, ◌↔◌, Bool, true, ◌&&◌, Option, List, arith, eqb, Eq}
use zfx_subzero.Alpha
use zfx_subzero.Graph
use zfx_subzero.Cell.Types.{Cell}

abbrev pub BlockHash : Type 0
BlockHash = ℕ

abbrev pub BlockHeight : Type 0
BlockHeight = ℕ

-- src/alpha/block.rs
pub record Block : Type 0 where
  pub predecessor : Option BlockHash
  pub height : BlockHeight
  pub vrf_out : ℕ
  pub cells : List Cell

-- src/hail/vertex.rs
pub record Vertex : Type 0 where
  pub height : BlockHeight
  pub block_hash : BlockHash

unfoldable pub vertex_beq : Vertex → Vertex → Bool
vertex_beq a b = eqb a.height b.height && eqb a.block_hash b.block_hash

pub vertex_beq_iff : (a b : Vertex) → (vertex_beq a b ≡ true) ↔ (a ≡ b)
unfolding vertex_beq
vertex_beq_iff a b = ground arith

instance abbrev pub vertex_eq : Eq Vertex
vertex_eq = record { eq = vertex_beq; eq_iff = vertex_beq_iff }

pub data Error : Type 0 where
  actix_mailbox_error : Error
  alpha : Alpha.Error → Error
  sled : String → Error
  graph : Graph.Error → Error
  invalid_block : Block → Error
  invalid_block_hash : BlockHash → Error
  invalid_block_height : BlockHeight → Error
  invalid_parent invalid_conflict_set insufficient_weight empty_dag : Error

-- Safety parameters, src/hail/hail.rs
abbrev pub beta1 : ℕ
beta1 = 11

abbrev pub beta2 : ℕ
beta2 = 20
