-- ===== src/Hpp/Types.antt =====
-- internal/hpp/plan.go: addresses, tree references and positions. They are read from requests, so
-- every number is a signed one.
use storage_aware_hmfaudit.Prelude.{
  ℕ, ◌≡◌, ◌↔◌, Bool, true, ◌&&◌, arith, ℤ, pos, Eq, int_eq, nat_eq, list_eq, ◌=?◌, bytes_iff,
  int_iff, List,
}
use storage_aware_hmfaudit.Crypto.{Bytes}

pub record PhysicalAddress : Type 0 where
  pub region_id : Bytes
  pub shard_id : ℤ
  pub segment_id : ℤ
  pub leaf_id : ℤ

-- `TreeLayer`; a value outside the four constants is `other`.
pub data TreeLayer : Type 0 where
  segment shard region global other : TreeLayer

pub record TreeRef : Type 0 where
  pub layer : TreeLayer
  pub region_id : Bytes
  pub shard_id : ℤ
  pub segment_id : ℤ

pub record NodePosition : Type 0 where
  pub level : ℤ
  pub index : ℤ

pub record TreePlan : Type 0 where
  pub tree : TreeRef
  pub leaf_count : ℤ
  pub targets : List ℤ
  pub required : List NodePosition

-- The position that the code writes as `NodePosition{Level: level, Index: index}`.
abbrev pub at : ℕ → ℕ → NodePosition
at level index = record { level = pos level; index = pos index }

abbrev pub position_beq : NodePosition → NodePosition → Bool
position_beq a b = (a.level =? b.level) && (a.index =? b.index)

pub position_beq_iff : (a b : NodePosition) → (position_beq a b ≡ true) ↔ (a ≡ b)
position_beq_iff a b = ground (arith, int_iff a.level b.level, int_iff a.index b.index)

instance abbrev pub position_eq : Eq NodePosition
position_eq = record { beq = position_beq; beq_iff = position_beq_iff }

abbrev pub address_beq : PhysicalAddress → PhysicalAddress → Bool
address_beq a b =
    (a.region_id =? b.region_id)
    && ((a.shard_id =? b.shard_id) && ((a.segment_id =? b.segment_id) && (a.leaf_id =? b.leaf_id)))

pub address_beq_iff : (a b : PhysicalAddress) → (address_beq a b ≡ true) ↔ (a ≡ b)
address_beq_iff a b = ground (
  arith,
  bytes_iff a.region_id b.region_id,
  int_iff a.shard_id b.shard_id,
  int_iff a.segment_id b.segment_id,
  int_iff a.leaf_id b.leaf_id,
)

instance abbrev pub address_eq : Eq PhysicalAddress
address_eq = record { beq = address_beq; beq_iff = address_beq_iff }
