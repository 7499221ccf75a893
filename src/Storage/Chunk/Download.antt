-- ===== src/Storage/Chunk/Download.antt =====
-- `StoreDownloadedChunk` and `HasChunk`.
use file_sharing_system_with.Prelude.{
  ◌⊎◌, inl, inr, ◌^◌, ◌<◌, arith, Bool-cases, bytes_beq_iff, ◌≡◌, refl, ◌≢◌, true, false, some,
  Bytes, bytes_beq, bytes_eq, if◌then◌else◌,
}
use file_sharing_system_with.Word.{Int32}
use file_sharing_system_with.GoMap.Laws.{has-insert, lookup-insert_same}
use file_sharing_system_with.Storage.Chunk.Keys.{chunk_store_key-injective}
use file_sharing_system_with.Storage.Disk.{Disk, IsHealthy, mkdir_all, write_file}
use file_sharing_system_with.Storage.Hash.{compute_hash}
use file_sharing_system_with.Storage.Hash.Check.{verify_chunk-mismatch, verify_chunk-valid}
use file_sharing_system_with.Storage.Chunk.{
  ChunkStore, chunk_store_key, put_chunk, has_chunk, get_chunk, chunk_path, persist_chunk,
  store_downloaded_chunk,
}

pub has_chunk-put_chunk :
    (cs : ChunkStore) (f g : Bytes) (i j : Int32) (content : Bytes)
    → has_chunk (put_chunk cs f i content) g j
      ≡ (if bytes_beq (chunk_store_key f i) (chunk_store_key g j) then true else has_chunk cs g j)
unfolding has_chunk put_chunk
has_chunk-put_chunk cs f g i j content =
    has-insert (chunk_store_key f i) (chunk_store_key g j) content cs.chunks

pub has_chunk-put_chunk-cases :
    (cs : ChunkStore) (f g : Bytes) (i j : Int32) (content : Bytes)
    → i < 2 ^ 32
    → j < 2 ^ 32
    → has_chunk (put_chunk cs f i content) g j ≡ true
    → (f ≡ g) × (i ≡ j) ⊎ (has_chunk cs g j ≡ true)
has_chunk-put_chunk-cases cs f g i j content hi hj h =
    let read = has_chunk-put_chunk cs f g i j content in
    elim (Bool-cases (bytes_beq (chunk_store_key f i) (chunk_store_key g j))) [
      | inl same ↦
          let key = (bytes_beq_iff (chunk_store_key f i) (chunk_store_key g j)).0 same in
          inl (chunk_store_key-injective f g i j hi hj key)
      | inr other ↦ inr (ground (arith, read, other))
    ]

pub has_chunk-put_chunk_same :
    (cs : ChunkStore) (f : Bytes) (i : Int32) (content : Bytes)
    → has_chunk (put_chunk cs f i content) f i ≡ true
has_chunk-put_chunk_same cs f i content = ground (
  arith,
  has_chunk-put_chunk cs f f i i content,
  bytes_beq_iff (chunk_store_key f i) (chunk_store_key f i),
)

persist_chunk-healthy :
    (sha256 : Bytes → Bytes) (join : Bytes → Bytes → Bytes) (cs : ChunkStore) (f : Bytes)
    (i : Int32) (content : Bytes) (disk : Disk)
    → IsHealthy disk
    → (persist_chunk sha256 join cs f i content disk).1 ≡ true
unfolding persist_chunk mkdir_all write_file
persist_chunk-healthy sha256 join cs f i content disk healthy =
    let dir = healthy.makes (join cs.base_dir f) in
    let path = healthy.writes (chunk_path sha256 join cs f i) in rw (dir, write_file, path)

module _ (sha256 : Bytes → Bytes) (join : Bytes → Bytes → Bytes) (cs : ChunkStore) (disk : Disk)
    (file_id : Bytes) (i : Int32) (content expected : Bytes) where
  pub store_downloaded_chunk-mismatch :
      compute_hash sha256 content ≢ expected
      → store_downloaded_chunk sha256 join cs disk file_id i content expected ≡ (false, cs, disk)
  unfolding store_downloaded_chunk
  store_downloaded_chunk-mismatch ne =
      rw (verify_chunk-mismatch sha256 content expected ne, store_downloaded_chunk)

  -- Content that matches goes into the map, whether or not it is written.
  pub store_downloaded_chunk-matching :
      compute_hash sha256 content ≡ expected
      → store_downloaded_chunk sha256 join cs disk file_id i content expected ≡ (
          let (disk', done) =
            persist_chunk sha256 join (put_chunk cs file_id i content) file_id i content disk in
          (done, put_chunk cs file_id i content, disk'))
  unfolding store_downloaded_chunk
  store_downloaded_chunk-matching same =
      rw (verify_chunk-valid sha256 content expected same, store_downloaded_chunk) refl

  pub store_downloaded_chunk-accepted :
      compute_hash sha256 content ≡ expected
      → IsHealthy disk
      → (disk' : Disk) × (store_downloaded_chunk sha256 join cs disk file_id i content expected
          ≡ (true, put_chunk cs file_id i content, disk'))
  unfolding store_downloaded_chunk
  store_downloaded_chunk-accepted same healthy =
      let done =
        persist_chunk-healthy sha256 join (put_chunk cs file_id i content) file_id i content disk
          healthy in
      (
        (persist_chunk sha256 join (put_chunk cs file_id i content) file_id i content disk).0,
        rw (verify_chunk-valid sha256 content expected same, store_downloaded_chunk, done),
      )

  -- What was put into the store is what a download gives.
  pub get_chunk-put_chunk :
      get_chunk sha256 join (put_chunk cs file_id i content) disk file_id i ≡ some content
  unfolding get_chunk put_chunk
  get_chunk-put_chunk =
      rw (lookup-insert_same (chunk_store_key file_id i) content cs.chunks, get_chunk)
