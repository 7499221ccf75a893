-- ===== src/Storage/Bloom/Transfer.antt =====
-- A filter survives the transfer to another peer.
use file_sharing_system_with.Prelude.{◌^◌, ◌<◌, ◌≡◌}
use file_sharing_system_with.Word.{from_int32-to_int32}
use file_sharing_system_with.Storage.Bloom.{BloomFilter, serialize, deserialize_bloom_filter}

-- A filter whose three numbers fit a positive int32 is the same after it is sent and read again.
pub deserialize-serialize :
    (bf : BloomFilter)
    → bf.num_bits < 2 ^ 31
    → bf.num_hashes < 2 ^ 31
    → bf.item_count < 2 ^ 31
    → deserialize_bloom_filter (serialize bf) ≡ bf
unfolding deserialize_bloom_filter serialize
deserialize-serialize bf h1 h2 h3 = rw (
  from_int32-to_int32 bf.num_bits h1,
  from_int32-to_int32 bf.num_hashes h2,
  from_int32-to_int32 bf.item_count h3,
)
