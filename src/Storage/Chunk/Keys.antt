-- ===== src/Storage/Chunk/Keys.antt =====
-- Two chunks never share a key of the store's map.
use file_sharing_system_with.Prelude.{
  ◌^◌, ◌<◌, ◌≡◌, ◌≢◌, false, Bytes, bytes_beq, bytes_beq_iff, arith,
}
use file_sharing_system_with.Word.{Int32}
use file_sharing_system_with.Fmt.Split.{format_int32-suffix}
use file_sharing_system_with.Storage.Chunk.{chunk_store_key}

-- The store's key of a chunk with a 32-bit index determines the file and the index, whatever bytes the
-- file identifier has.
pub chunk_store_key-injective :
    (f g : Bytes) (i j : Int32)
    → i < 2 ^ 32
    → j < 2 ^ 32
    → chunk_store_key f i ≡ chunk_store_key g j
    → (f ≡ g) × (i ≡ j)
unfolding chunk_store_key
chunk_store_key-injective f g i j hi hj e = format_int32-suffix f g i j hi hj e

pub chunk_store_key-ne :
    (f : Bytes) (i j : Int32)
    → i < 2 ^ 32
    → j < 2 ^ 32
    → i ≢ j
    → bytes_beq (chunk_store_key f i) (chunk_store_key f j) ≡ false
chunk_store_key-ne f i j hi hj ne = ground (
  arith,
  bytes_beq_iff (chunk_store_key f i) (chunk_store_key f j),
  chunk_store_key-injective f f i j hi hj,
)
