-- ===== src/Storage/Manager/Failing.antt =====
-- `UploadFile` on any disk: what it leaves when a chunk cannot be written.
use file_sharing_system_with.Prelude.{
  ◌*◌, ◌-◌, ◌^◌, ◌≤◌, ◌<◌, ◌≡◌, ◌≢◌, refl, ◌⊎◌, inl, inr, true, false, some, Bytes, bytes_eq,
  bytes_beq_iff, length, arith, Bool-cases, ap,
}
use file_sharing_system_with.Word.{Int32}
use file_sharing_system_with.GoMap.{lookup, has}
use file_sharing_system_with.GoMap.Laws.{lookup-insert}
use file_sharing_system_with.Storage.Disk.{Disk}
use file_sharing_system_with.Storage.Bloom.{BloomFilter}
use file_sharing_system_with.Storage.Bloom.Add.{IsValid}
use file_sharing_system_with.Storage.Chunk.{
  FileMetadata, Splitting, split_loop, num_chunks, rounds32, chunk_store_key, has_chunk,
  make_metadata, get_file_metadata,
}
use file_sharing_system_with.Storage.Chunk.Slices.{num_chunks-covers}
use file_sharing_system_with.Storage.Chunk.Others.{Aside, split_loop-Aside}
use file_sharing_system_with.Storage.Chunk.Split.{before, after, split_file-failed}
use file_sharing_system_with.Storage.Manager.{
  StorageManager, confirm_has_chunk, uploaded, upload_error, upload_file,
}
use file_sharing_system_with.Storage.Manager.Tracking.{Tracked}
use file_sharing_system_with.Storage.Manager.Upload.{Uploaded, upload_file-after}

-- The other files are as they were: their metadata, and their chunks in memory.
pub record Spared (file_id : Bytes) (sm sm' : StorageManager) : Type 0 where
  pub metadata :
      (f : Bytes) → f ≢ file_id → get_file_metadata sm'.store f ≡ get_file_metadata sm.store f
  pub content :
      (f : Bytes) (j : Int32)
      → f ≢ file_id
      → j < 2 ^ 32
      → lookup (chunk_store_key f j) sm'.store.chunks ≡ lookup (chunk_store_key f j) sm.store.chunks
  pub present :
      (f : Bytes) (j : Int32)
      → f ≢ file_id
      → j < 2 ^ 32
      → confirm_has_chunk sm' f j ≡ confirm_has_chunk sm f j

Spared-intro :
    (file_id : Bytes) (sm sm' : StorageManager)
    → ((f : Bytes) → f ≢ file_id → get_file_metadata sm'.store f ≡ get_file_metadata sm.store f)
    → ((f : Bytes) (j : Int32)
        → f ≢ file_id
        → j < 2 ^ 32
        → lookup (chunk_store_key f j) sm'.store.chunks
          ≡ lookup (chunk_store_key f j) sm.store.chunks)
    → Spared file_id sm sm'
unfolding confirm_has_chunk has_chunk has
Spared-intro file_id sm sm' metadata content = record {
  metadata = metadata;
  content = content;
  present = λ f j ne hj. rw (content f j ne hj, has) refl;
}

module _ (sha256 : Bytes → Bytes) (join : Bytes → Bytes → Bytes) where
  after-Spared :
      (sm : StorageManager) (file_id file_name text root : Bytes) (bloom : BloomFilter)
      (s : Splitting)
      → Aside file_id sm.store s.store
      → Spared file_id sm
          (record sm { store = after sha256 join file_id file_name text root s; bloom = bloom })
  unfolding get_file_metadata
  after-Spared sm file_id file_name text root bloom s aside =
      Spared-intro file_id sm _
        (λ f ne.
          let read =
            lookup-insert file_id f (make_metadata file_id file_name text s.hashes root)
              s.store.files in
          let other = bytes_beq_iff file_id f in
          let kept = ap (lookup f) aside.metadata in ground (arith, read, other, kept, ne))
        aside.others

  failed-Spared :
      (sm : StorageManager) (file_id : Bytes) (s : Splitting)
      → Aside file_id sm.store s.store
      → Spared file_id sm (record sm { store = s.store })
  unfolding get_file_metadata
  failed-Spared sm file_id s aside =
      Spared-intro file_id sm _ (λ f ne. ap (lookup f) aside.metadata) aside.others

  -- With a hash of 32 bytes and a valid filter that is in step with the store, on any disk, whatever
  -- it fails to make or write, uploading a text of 1 to (2 ^ 31 - 1) * 2 ^ 18 bytes either succeeds,
  -- and then the file is whole, listed, served and in the filter, or returns an error, and then the
  -- metadata of every file and the filter are as they were. In both cases the other files keep their
  -- metadata and their chunks in memory.
  pub upload_file-cases :
      (digest : (t : Bytes) → length (sha256 t) ≡ 32) (sm : StorageManager) (disk : Disk)
      (file_id file_name text : Bytes)
      → 0 < length text
      → length text ≤ (2 ^ 31 - 1) * 2 ^ 18
      → IsValid sm.bloom
      → Tracked sm
      → ((meta : FileMetadata) × (sm' : StorageManager) × (disk' : Disk) × (upload_file sha256 join
              sm disk file_id file_name text
            ≡ some (uploaded meta sm' disk'))
          × Uploaded sha256 join file_id text meta sm'
          × Spared file_id sm sm')
        ⊎ ((sm' : StorageManager) × (disk' : Disk) × (upload_file sha256 join sm disk file_id
                file_name text
              ≡ some (upload_error sm' disk'))
            × (sm'.store.files ≡ sm.store.files)
            × (sm'.bloom ≡ sm.bloom)
            × Spared file_id sm sm')
  unfolding upload_file
  upload_file-cases digest sm disk file_id file_name text some_text small v tracked =
      let n = rounds32 (num_chunks text) in
      let start = before sha256 join sm.store disk in
      let run = split_loop sha256 join file_id text n 0 start in
      let s = run.0 in
      let (fits, bound, _) = num_chunks-covers text small in
      let aside = split_loop-Aside sha256 join file_id text n 0 start (omega arith) in
      elim (Bool-cases run.1) [
        | inl done ↦
            let runs : run ≡ (s, true) = ap (λ b. (s, b)) done in
            let (root, bloom, done_up) =
              upload_file-after sha256 join digest sm disk file_id file_name text s some_text small
                v tracked runs in
            inl (
              make_metadata file_id file_name text s.hashes root,
              record sm { store = after sha256 join file_id file_name text root s; bloom = bloom },
              s.disk,
              done_up.0,
              done_up.1,
              after-Spared sm file_id file_name text root bloom s aside,
            )
        | inr failed ↦
            let runs : run ≡ (s, false) = ap (λ b. (s, b)) failed in
            inr (
              record sm { store = s.store },
              s.disk,
              rw (
                split_file-failed sha256 join sm.store disk file_id file_name text s fits runs,
                upload_file,
              ),
              aside.metadata,
              refl,
              failed-Spared sm file_id s aside,
            )
      ]
