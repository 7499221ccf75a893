-- ===== src/Storage/Manager/Start.antt =====
-- `NewStorageManager`.
use file_sharing_system_with.Prelude.{◌^◌, ◌<◌, ◌≡◌, refl, true, false, some, [], Bytes}
use file_sharing_system_with.Word.{Int32}
use file_sharing_system_with.GoMap.{has, lookup}
use file_sharing_system_with.Float.{Float64, IsLawful}
use file_sharing_system_with.Storage.Disk.{Disk, mkdir_all}
use file_sharing_system_with.Storage.Bloom.{BloomFilter, might_contain}
use file_sharing_system_with.Storage.Bloom.Sizes.{optimal_num_bits}
use file_sharing_system_with.Storage.Bloom.Fresh.{new_bloom_filter-IsValid}
use file_sharing_system_with.Storage.Bloom.Add.{IsValid}
use file_sharing_system_with.Storage.Chunk.{ChunkStore, new_chunk_store, has_chunk}
use file_sharing_system_with.Storage.Manager.{
  StorageManager, confirm_has_chunk, made, new_storage_manager,
}
use file_sharing_system_with.Storage.Manager.Tracking.{Tracked}

-- A store with nothing in memory.
abbrev pub empty_store : Bytes → ChunkStore
empty_store base_dir = record { base_dir = base_dir; files = []; chunks = [] }

pub new_storage_manager-made :
    {F : Type 0} (fl : Float64 F) (lawful : IsLawful fl) (disk : Disk) (peer_id : Int32)
    (base_dir : Bytes)
    → disk.can_make base_dir ≡ true
    → 0 < optimal_num_bits fl 10_000 fl.one_percent
    → optimal_num_bits fl 10_000 fl.one_percent < 2 ^ 32
    → (bloom : BloomFilter) × (new_storage_manager fl disk peer_id base_dir
        ≡ made (record { store = empty_store base_dir; bloom = bloom; peer_id = peer_id }))
      × IsValid bloom
      × ((k : Bytes) → might_contain k bloom ≡ some false)
unfolding new_storage_manager new_chunk_store mkdir_all
new_storage_manager-made fl lawful disk peer_id base_dir can pos small =
    let (bloom, runs, v, empty) =
      new_bloom_filter-IsValid fl lawful 10_000 fl.one_percent pos small in
    (bloom, rw (can, new_storage_manager, runs), v, empty)

-- If the directory can be made and the size of the filter for 10,000 chunks at 1% is positive and fits
-- 32 bits, the manager is made: it has no chunk, its filter is valid and in step with the store.
pub new_storage_manager-Tracked :
    {F : Type 0} (fl : Float64 F) (lawful : IsLawful fl) (disk : Disk) (peer_id : Int32)
    (base_dir : Bytes)
    → disk.can_make base_dir ≡ true
    → 0 < optimal_num_bits fl 10_000 fl.one_percent
    → optimal_num_bits fl 10_000 fl.one_percent < 2 ^ 32
    → (sm : StorageManager) × (new_storage_manager fl disk peer_id base_dir ≡ made sm)
      × IsValid sm.bloom
      × Tracked sm
      × ((f : Bytes) (i : Int32) → confirm_has_chunk sm f i ≡ false)
unfolding confirm_has_chunk has_chunk has lookup
new_storage_manager-Tracked fl lawful disk peer_id base_dir can pos small =
    let (bloom, runs, v, empty) =
      new_storage_manager-made fl lawful disk peer_id base_dir can pos small in
    (
      record { store = empty_store base_dir; bloom = bloom; peer_id = peer_id },
      runs,
      v,
      record { seen = λ f i hi h. cc },
      λ f i. refl,
    )
