-- ===== src/Storage/Manager.antt =====
-- internal/storage/manager.go, with `ChunkKey` of internal/storage/bloom.go. The identifier that
-- uuid.New() makes is an argument of `upload_file`; the log lines are left out, but not the slice
-- `RootHash[:16]` in one of them, which panics on a shorter text.
pub mod Keys
pub mod Receive
pub mod Tracking
pub mod Upload
pub mod Failing
pub mod Restart
pub mod Start
pub mod Empty
mod Tests
use file_sharing_system_with.Prelude.{
  ℕ, ◌+◌, ◌-◌, ◌*◌, ◌/◌, ◌%◌, ◌^◌, Bool, true, false, Option, none, some, List, [], ◌∷◌, ◌++◌, map,
  Bytes, length, ltb, if◌then◌else◌,
}
use file_sharing_system_with.Word.{Int32}
use file_sharing_system_with.Float.{Float64}
use file_sharing_system_with.Storage.Bloom.Sizes.{new_bloom_filter}
use file_sharing_system_with.Storage.Disk.{Disk}
use file_sharing_system_with.Storage.Hash.{compute_hash}
use file_sharing_system_with.Storage.Bloom.{BloomFilter, add, add_all, might_contain}
use file_sharing_system_with.Storage.Chunk.{
  Chunk, FileMetadata, ChunkStore, new_chunk_store, SplitResult, split, split_error, split_panic,
  split_file, has_chunk, get_chunk, store_downloaded_chunk,
}

-- binary.BigEndian.PutUint32 of uint32(i)
pub big_endian32 : Int32 → Bytes
big_endian32 i = i / 2 ^ 24 % 256 ∷ i / 2 ^ 16 % 256 ∷ i / 2 ^ 8 % 256 ∷ i % 256 ∷ []

pub chunk_key : Bytes → Int32 → Bytes
chunk_key file_id i = file_id ++ b':' ∷ big_endian32 i

pub record StorageManager : Type 0 where
  pub store : ChunkStore
  pub bloom : BloomFilter
  pub peer_id : Int32

pub data NewManager : Type 0 where
  made : StorageManager → NewManager
  make_error : NewManager
  make_panic : NewManager

-- A manager whose filter expects 10,000 chunks at a false positive rate of 1%.
pub new_storage_manager : {F : Type 0} → Float64 F → Disk → Int32 → Bytes → NewManager
new_storage_manager fl disk peer_id base_dir = elim (new_chunk_store base_dir disk) [
  | none ↦ make_error
  | some store ↦ elim (new_bloom_filter fl 10_000 fl.one_percent) [
    | none ↦ make_panic
    | some bloom ↦ made (record { store = store; bloom = bloom; peer_id = peer_id })
  ]
]

pub key_of : Chunk → Bytes
key_of c = chunk_key c.file_id c.index

pub data UploadResult : Type 0 where
  uploaded : FileMetadata → StorageManager → Disk → UploadResult
  upload_error : StorageManager → Disk → UploadResult
  upload_panic : UploadResult

pub data ReceiveResult : Type 0 where
  received : StorageManager → Disk → ReceiveResult
  rejected : StorageManager → Disk → ReceiveResult
  receive_panic : ReceiveResult

unfoldable pub might_have_chunk : StorageManager → Bytes → Int32 → Option Bool
might_have_chunk sm file_id i = might_contain (chunk_key file_id i) sm.bloom

unfoldable pub confirm_has_chunk : StorageManager → Bytes → Int32 → Bool
confirm_has_chunk sm file_id i = has_chunk sm.store file_id i

-- The end of `UploadFile`: the keys of the chunks go into the filter, and the log line is made.
pub note_chunks : StorageManager → FileMetadata → List Chunk → ChunkStore → Disk → UploadResult
note_chunks sm meta chunks store disk = elim (add_all (map key_of chunks) sm.bloom) [
  | none ↦ upload_panic
  | some bloom ↦
      if ltb (length meta.root_hash) 16
      then upload_panic
      else uploaded meta (record sm { store = store; bloom = bloom }) disk
]

-- The end of `ReceiveChunk`, from the result of `StoreDownloadedChunk`.
pub note_chunk : StorageManager → Bytes → Int32 → Bool × ChunkStore × Disk → ReceiveResult
note_chunk sm file_id i (false, store, disk) = rejected (record sm { store = store }) disk
note_chunk sm file_id i (true, store, disk) = elim (add (chunk_key file_id i) sm.bloom) [
  | none ↦ receive_panic
  | some bloom ↦ received (record sm { store = store; bloom = bloom }) disk
]

module _ (sha256 : Bytes → Bytes) (join : Bytes → Bytes → Bytes) where
  -- `none` stands for a Merkle tree that is never built.
  pub upload_file : StorageManager → Disk → Bytes → Bytes → Bytes → Option UploadResult
  upload_file sm disk file_id file_name text =
      elim (split_file sha256 join sm.store disk file_id file_name text) [
        | none ↦ none
        | some (split_error, store, disk') ↦ some (upload_error (record sm { store = store }) disk')
        | some (split_panic, store, disk') ↦ some upload_panic
        | some (split meta chunks, store, disk') ↦ some (note_chunks sm meta chunks store disk')
      ]

  unfoldable pub download_chunk : StorageManager → Disk → Bytes → Int32 → Option (Bytes × Bytes)
  download_chunk sm disk file_id i = elim (get_chunk sha256 join sm.store disk file_id i) [
    | none ↦ none
    | some content ↦ some (content, compute_hash sha256 content)
  ]

  pub receive_chunk : StorageManager → Disk → Bytes → Int32 → Bytes → Bytes → ReceiveResult
  receive_chunk sm disk file_id i content expected =
      note_chunk sm file_id i
        (store_downloaded_chunk sha256 join sm.store disk file_id i content expected)
