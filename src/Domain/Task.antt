-- ===== src/Domain/Task.antt =====
-- internal/domain/entities/delivery_task.go and message.go: the rows of the work queue.
-- `PartitionKeyFor` uses Go's hash/crc32, which is written out here bit by bit.
mod Examples
use Prim.Native.Nat.{bit_xor}
use huxio.Prelude.{
  ℕ, zero, suc, ◌+◌, ◌/◌, ◌%◌, ◌<◌, ◌≡◌, refl, Bool, true, false, Option, List, [], ◌∷◌, String,
  arith, ◌==◌, if◌then◌else◌, bytes,
}

-- A kind that is neither of the two is kept, since the column holds any number.
pub data TaskKind : Type 0 where
  fanout deliver : TaskKind
  unknown : ℕ → TaskKind

pub data TriggerType : Type 0 where
  scheduled manual bulk_replay : TriggerType

-- `TriggerType.Retryable`
unfoldable pub retryable : TriggerType → Bool
retryable scheduled = true
retryable _ = false

abbrev pub queue_partitions : ℕ
queue_partitions = 256

pub record DeliveryTask : Type 0 where
  pub id : ℕ
  pub partition_key : ℕ
  pub pool : String
  pub kind : TaskKind
  pub org_id : String
  pub app_id : String
  pub msg_id : String
  pub msg_created_at : ℕ
  pub endpoint_id : Option String
  pub attempt : ℕ
  pub trigger_type : TriggerType
  pub visible_at : ℕ
  pub locked_by : Option String
  pub locked_until : Option ℕ
  pub created_at : ℕ
  pub deleted_at : Option ℕ

-- What a delivery reads of a message.
pub record Message : Type 0 where
  pub id : String
  pub event_type : String
  pub channels : List String

-- One bit of the reflected polynomial division.
crc_bit : ℕ → ℕ
crc_bit c = if c % 2 == 1 then bit_xor (c / 2) 0xedb88320 else c / 2

crc_bits : ℕ → ℕ → ℕ
unfolding crc_bit
crc_bits zero c = c
crc_bits (suc k) c = crc_bits k (crc_bit c)

crc_bytes : ℕ → List ℕ → ℕ
unfolding crc_bits
crc_bytes c [] = c
crc_bytes c (b ∷ bs) = crc_bytes (crc_bits 8 (bit_xor c b)) bs

-- `crc32.ChecksumIEEE`
unfoldable pub checksum_ieee : List ℕ → ℕ
unfolding crc_bytes
checksum_ieee bs = bit_xor (crc_bytes 0xffffffff bs) 0xffffffff

unfoldable pub partition_key_for : String → ℕ
unfolding checksum_ieee
partition_key_for id = checksum_ieee (bytes id) % queue_partitions

-- Every id is routed to one of the fixed partitions, so the int16 of the source holds it.
pub partition_key_for_bound : (id : String) → partition_key_for id < queue_partitions
unfolding partition_key_for
partition_key_for_bound id = omega arith
