-- ===== src/Domain/Task/Examples.antt =====
-- The checksum's published check value, and the partition of an id.
use huxio.Prelude.{◌≡◌, refl, bytes}
use huxio.Domain.Task.{checksum_ieee, partition_key_for}

checksum_check : checksum_ieee (bytes "123456789") ≡ 0xcbf43926
unfolding checksum_ieee
checksum_check = refl

partition_key_for_run : partition_key_for "ep_1" ≡ 220
unfolding partition_key_for
partition_key_for_run = refl
