-- ===== src/Storage/Manager/Restart.antt =====
-- internal/storage/manager.go: `NewStorageManager` on the disk that an `UploadFile` left, which is what
-- a peer does when it is started again.
use file_sharing_system_with.Prelude.{
  ℕ, ◌*◌, ◌-◌, ◌^◌, ◌≤◌, ◌<◌, ◌≡◌, refl, true, false, none, some, Bytes, length, arith,
}
use file_sharing_system_with.Word.{Int32}
use file_sharing_system_with.GoMap.{lookup, has}
use file_sharing_system_with.Float.{Float64, IsLawful}
use file_sharing_system_with.Storage.Disk.{Disk, IsHealthy, read_file}
use file_sharing_system_with.Storage.Hash.{compute_hash}
use file_sharing_system_with.Storage.Bloom.{BloomFilter}
use file_sharing_system_with.Storage.Bloom.Sizes.{optimal_num_bits}
use file_sharing_system_with.Storage.Bloom.Add.{IsValid}
use file_sharing_system_with.Storage.Chunk.{
  FileMetadata, Splitting, split_loop, num_chunks, rounds32, chunk_data, chunk_path, has_chunk,
  get_chunk, make_metadata, assemble_file,
}
use file_sharing_system_with.Storage.Chunk.Slices.{num_chunks-covers}
use file_sharing_system_with.Storage.Chunk.Loop.{split_loop-healthy, split_round-IsHealthy}
use file_sharing_system_with.Storage.Chunk.Contents.{split_loop_inv}
use file_sharing_system_with.Storage.Chunk.Persist.{IsJoining, split_loop-Persisted, Persisted-read}
use file_sharing_system_with.Storage.Chunk.Split.{before, after, assemble_file-unknown}
use file_sharing_system_with.Storage.Manager.{
  StorageManager, confirm_has_chunk, might_have_chunk, chunk_key, made, new_storage_manager,
  uploaded, upload_file, download_chunk,
}
use file_sharing_system_with.Storage.Manager.Tracking.{Tracked}
use file_sharing_system_with.Storage.Manager.Start.{empty_store, new_storage_manager-made}
use file_sharing_system_with.Storage.Manager.Upload.{upload_file-after}

module _ (sha256 : Bytes → Bytes) (join : Bytes → Bytes → Bytes) where
  -- What a new manager on the same directory does with the chunks of an uploaded file.
  pub record Restarted (file_id text : Bytes) (meta : FileMetadata) (disk : Disk)
      (fresh : StorageManager) : Type 0 where
    pub sized : meta.total_chunks ≡ num_chunks text
    pub served :
        (i : Int32)
        → i < rounds32 meta.total_chunks
        → download_chunk sha256 join fresh disk file_id i
          ≡ some (chunk_data i text, compute_hash sha256 (chunk_data i text))
    pub denied : (f : Bytes) (i : Int32) → might_have_chunk fresh f i ≡ some false
    pub absent : (f : Bytes) (i : Int32) → confirm_has_chunk fresh f i ≡ false
    pub unknown : assemble_file sha256 join fresh.store disk file_id ≡ none

  split_loop-IsHealthy :
      (file_id text : Bytes) (n : ℕ) (s s' : Splitting)
      → IsHealthy s.disk
      → split_loop sha256 join file_id text n 0 s ≡ (s', true)
      → IsHealthy s'.disk
  split_loop-IsHealthy file_id text n s s' healthy runs =
      split_loop_inv sha256 join file_id text (λ i t. IsHealthy t.disk) n
        (λ i t lt h. (split_round-IsHealthy sha256 join file_id text i t h).1) n 0 s s'
        (omega arith) runs healthy

  download_chunk-read_file :
      (dir : Bytes) (peer_id : Int32) (bloom : BloomFilter) (disk : Disk) (file_id : Bytes)
      (i : Int32) (content : Bytes)
      → read_file (chunk_path sha256 join (empty_store dir) file_id i) disk ≡ some content
      → download_chunk sha256 join
          (record { store = empty_store dir; bloom = bloom; peer_id = peer_id })
          disk
          file_id
          i
        ≡ some (content, compute_hash sha256 content)
  unfolding download_chunk get_chunk lookup
  download_chunk-read_file dir peer_id bloom disk file_id i content read =
      rw (read, download_chunk) refl

  -- Upload a text of 1 to (2 ^ 31 - 1) * 2 ^ 18 bytes on a disk where everything succeeds, with a hash
  -- of 32 bytes, a valid filter that is in step with the store, and paths that keep different names in
  -- one directory apart; then start a new manager on the disk that is left, with the same directory
  -- and a filter size that fits 32 bits. Both succeed, and the new manager serves every chunk of the
  -- file with its hash from the disk, but its filter denies every chunk, it confirms none, and it
  -- cannot assemble the file.
  pub upload_file-Restarted :
      {F : Type 0} (fl : Float64 F) (lawful : IsLawful fl) (joining : IsJoining join)
      (digest : (t : Bytes) → length (sha256 t) ≡ 32) (sm : StorageManager) (disk : Disk)
      (peer_id : Int32) (file_id file_name text : Bytes)
      → IsHealthy disk
      → 0 < length text
      → length text ≤ (2 ^ 31 - 1) * 2 ^ 18
      → IsValid sm.bloom
      → Tracked sm
      → 0 < optimal_num_bits fl 10_000 fl.one_percent
      → optimal_num_bits fl 10_000 fl.one_percent < 2 ^ 32
      → (meta : FileMetadata) × (sm' : StorageManager) × (disk' : Disk) × (fresh : StorageManager)
        × (upload_file sha256 join sm disk file_id file_name text ≡ some (uploaded meta sm' disk'))
        × (new_storage_manager fl disk' peer_id sm'.store.base_dir ≡ made fresh)
        × Restarted file_id text meta disk' fresh
  unfolding chunk_path make_metadata confirm_has_chunk might_have_chunk has_chunk has lookup
  upload_file-Restarted fl lawful joining digest sm disk peer_id file_id file_name text healthy
        some_text small v tracked pos fits =
      let n = rounds32 (num_chunks text) in
      let start = before sha256 join sm.store disk in
      let (s, runs) = split_loop-healthy sha256 join file_id text n 0 start healthy in
      let (root, bloom, done_up) =
        upload_file-after sha256 join digest sm disk file_id file_name text s some_text small v
          tracked runs in
      let (_, bound, _) = num_chunks-covers text small in
      let dir = s.store.base_dir in
      let (empty, starts, _, denies) =
        new_storage_manager-made fl lawful s.disk peer_id dir
          ((split_loop-IsHealthy file_id text n start s healthy runs).makes dir) pos fits in
      let written =
        split_loop-Persisted sha256 join joining file_id text n 0 start s (omega arith) runs in
      (
        make_metadata file_id file_name text s.hashes root,
        record sm { store = after sha256 join file_id file_name text root s; bloom = bloom },
        s.disk,
        record { store = empty_store dir; bloom = empty; peer_id = peer_id },
        done_up.0,
        starts,
        record {
          sized = refl;
          served = λ i lt.
              download_chunk-read_file dir peer_id empty s.disk file_id i (chunk_data i text) (
                Persisted-read sha256 join joining file_id text s.store s.disk n 0 i written
                  (omega arith) (omega arith));
          denied = λ f i. denies (chunk_key f i);
          absent = λ f i. refl;
          unknown = assemble_file-unknown sha256 join (empty_store dir) s.disk file_id refl;
        },
      )
