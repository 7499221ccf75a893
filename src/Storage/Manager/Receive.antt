-- ===== src/Storage/Manager/Receive.antt =====
-- `ReceiveChunk` accepts only the content the hash was made of, and keeps the filter in step with the
-- store.
use file_sharing_system_with.Prelude.{
  ◌^◌, ◌<◌, ◌≡◌, ◌≢◌, refl, ◌⊎◌, true, some, Bytes, bytes_eq, inl, inr, Bool-cases, subst,
}
use file_sharing_system_with.Word.{Int32}
use file_sharing_system_with.Storage.Disk.{Disk, IsHealthy}
use file_sharing_system_with.Storage.Hash.{compute_hash}
use file_sharing_system_with.Storage.Bloom.{might_contain}
use file_sharing_system_with.Storage.Bloom.Add.{IsValid, add-Added}
use file_sharing_system_with.Storage.Chunk.{put_chunk, persist_chunk}
use file_sharing_system_with.Storage.Chunk.Download.{
  has_chunk-put_chunk-cases, has_chunk-put_chunk_same, store_downloaded_chunk-mismatch,
  store_downloaded_chunk-matching, store_downloaded_chunk-accepted, get_chunk-put_chunk,
}
use file_sharing_system_with.Storage.Manager.Tracking.{Tracked}
use file_sharing_system_with.Storage.Manager.{
  StorageManager, chunk_key, might_have_chunk, confirm_has_chunk, received, rejected, note_chunk,
  receive_chunk, download_chunk,
}

module _ (sha256 : Bytes → Bytes) (join : Bytes → Bytes → Bytes) (sm : StorageManager) (disk : Disk)
    (file_id : Bytes) (i : Int32) (content expected : Bytes) where
  -- Content whose SHA-256 is not the expected one is rejected, and nothing changes.
  pub receive_chunk-mismatch :
      compute_hash sha256 content ≢ expected
      → receive_chunk sha256 join sm disk file_id i content expected ≡ rejected sm disk
  unfolding receive_chunk note_chunk
  receive_chunk-mismatch ne = rw (
    store_downloaded_chunk-mismatch sha256 join sm.store disk file_id i content expected ne,
    receive_chunk,
  )

  -- On a disk where everything succeeds, with a valid filter that is in step with the store, content
  -- whose SHA-256 is the expected one is received for a 32-bit index: the chunk is there, a download
  -- gives it back with its hash, and the filter stays valid and in step with the store.
  pub receive_chunk-accepted :
      (later : Disk)
      → compute_hash sha256 content ≡ expected
      → IsHealthy disk
      → i < 2 ^ 32
      → IsValid sm.bloom
      → Tracked sm
      → (sm' : StorageManager) × (disk' : Disk) × (receive_chunk sha256 join sm disk file_id i
            content expected
          ≡ received sm' disk')
        × (confirm_has_chunk sm' file_id i ≡ true)
        × (download_chunk sha256 join sm' later file_id i ≡ some (content, expected))
        × IsValid sm'.bloom
        × Tracked sm'
  unfolding receive_chunk note_chunk download_chunk confirm_has_chunk might_have_chunk
  receive_chunk-accepted later same healthy hi v tracked =
      let store = put_chunk sm.store file_id i content in
      let (disk', stored) =
        store_downloaded_chunk-accepted sha256 join sm.store disk file_id i content expected same
          healthy in
      let (bloom, runs, added) = add-Added (chunk_key file_id i) sm.bloom v in
      let sm' : StorageManager = record sm { store = store; bloom = bloom } in
      (
        sm',
        disk',
        rw (stored, note_chunk, runs),
        has_chunk-put_chunk_same sm.store file_id i content,
        rw (get_chunk-put_chunk sha256 join sm.store later file_id i content, download_chunk, same),
        added.valid,
        record {
          seen = λ f j hj h.
              elim (has_chunk-put_chunk-cases sm.store file_id f i j content hi hj h) [
                | inl same ↦
                    subst (λ g. might_contain (chunk_key g j) bloom ≡ some true) same.0
                      (subst (λ k. might_contain (chunk_key file_id k) bloom ≡ some true) same.1
                        added.found)
                | inr before ↦ added.keeps (chunk_key f j) (tracked.seen f j hj before)
              ];
        },
      )

  -- With a valid filter, on any disk, whatever it fails to make or write: content whose SHA-256 is the
  -- expected one is in memory afterwards, and a download gives it back. It is either received, and
  -- then the filter might contain the chunk, or rejected, and then the filter is as it was.
  pub receive_chunk-cases :
      (later : Disk)
      → compute_hash sha256 content ≡ expected
      → IsValid sm.bloom
      → (sm' : StorageManager) × (disk' : Disk) × (confirm_has_chunk sm' file_id i ≡ true)
        × (download_chunk sha256 join sm' later file_id i ≡ some (content, expected))
        × ((receive_chunk sha256 join sm disk file_id i content expected ≡ received sm' disk')
              × (might_have_chunk sm' file_id i ≡ some true)
            ⊎ (receive_chunk sha256 join sm disk file_id i content expected ≡ rejected sm' disk')
              × (sm'.bloom ≡ sm.bloom))
  unfolding receive_chunk note_chunk download_chunk confirm_has_chunk might_have_chunk
  receive_chunk-cases later same v =
      let store = put_chunk sm.store file_id i content in
      let written = persist_chunk sha256 join store file_id i content disk in
      let matching =
        store_downloaded_chunk-matching sha256 join sm.store disk file_id i content expected same in
      let there = has_chunk-put_chunk_same sm.store file_id i content in
      let (bloom, runs, added) = add-Added (chunk_key file_id i) sm.bloom v in
      elim (Bool-cases written.1) [
        | inl done ↦ (
          record sm { store = store; bloom = bloom },
          written.0,
          there,
          rw (
            get_chunk-put_chunk sha256 join sm.store later file_id i content,
            download_chunk,
            same,
          ),
          inl (rw (matching, done, note_chunk, runs), added.found),
        )
        | inr failed ↦ (
          record sm { store = store },
          written.0,
          there,
          rw (
            get_chunk-put_chunk sha256 join sm.store later file_id i content,
            download_chunk,
            same,
          ),
          inr (rw (matching, failed, note_chunk), refl),
        )
      ]
