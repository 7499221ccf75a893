-- ===== src/Storage/Manager/Tests.antt =====
-- Runs of the manager, and the theorems at a concrete one.
use file_sharing_system_with.Prelude.{
  ◌≡◌, ◌≢◌, ◌⊎◌, refl, true, some, [], ◌∷◌, drop, append_split, arith, ap,
}
use file_sharing_system_with.Storage.Disk.{Disk}
use file_sharing_system_with.Storage.Hash.{hex, compute_hash}
use file_sharing_system_with.Storage.Bloom.Add.{IsValid}
use file_sharing_system_with.Storage.Chunk.{FileMetadata}
use file_sharing_system_with.Storage.Manager.{
  StorageManager, made, new_storage_manager, upload_error, might_have_chunk, confirm_has_chunk,
  download_chunk, upload_file, upload_panic, uploaded, receive_chunk, received, rejected,
}
use file_sharing_system_with.Storage.Bloom.Sizes.{optimal_num_bits}
use file_sharing_system_with.Float.{toy_float, toy_float-IsLawful}
use file_sharing_system_with.Storage.Chunk.Persist.{IsJoining}
use file_sharing_system_with.Storage.Manager.Failing.{Spared, upload_file-cases}
use file_sharing_system_with.Storage.Manager.Restart.{Restarted, upload_file-Restarted}
use file_sharing_system_with.Storage.Manager.Empty.{upload_file-nil}
use file_sharing_system_with.Storage.Manager.Upload.{Uploaded, upload_file-Uploaded}
use file_sharing_system_with.Storage.Manager.Tracking.{Tracked}
use file_sharing_system_with.Storage.Manager.Receive.{
  receive_chunk-mismatch, receive_chunk-accepted, receive_chunk-cases,
}
use file_sharing_system_with.Samples.{
  toy_sum, slash, manager, good_disk, good_disk-IsHealthy, bloom-IsValid, manager-Tracked, file,
  words, toy_sum-size,
}

words-hash : compute_hash toy_sum words ≢ []
unfolding compute_hash hex
words-hash e = absurd (ground (arith, e))

receive_chunk-mismatch_example :
    receive_chunk toy_sum slash manager good_disk file 3 words [] ≡ rejected manager good_disk
receive_chunk-mismatch_example =
    receive_chunk-mismatch toy_sum slash manager good_disk file 3 words [] words-hash

receive_chunk-accepted_example :
    (sm' : StorageManager) × (disk' : Disk) × (receive_chunk toy_sum slash manager good_disk file 3
        words
        (compute_hash toy_sum words)
      ≡ received sm' disk')
    × (confirm_has_chunk sm' file 3 ≡ true)
    × (download_chunk toy_sum slash sm' good_disk file 3 ≡ some (words, compute_hash toy_sum words))
    × IsValid sm'.bloom
    × Tracked sm'
receive_chunk-accepted_example =
    receive_chunk-accepted toy_sum slash manager good_disk file 3 words (compute_hash toy_sum words)
      good_disk refl good_disk-IsHealthy (omega arith) bloom-IsValid manager-Tracked

upload_file-nil_example :
    upload_file toy_sum slash manager good_disk file words [] ≡ some upload_panic
upload_file-nil_example = upload_file-nil toy_sum slash manager good_disk file words

upload_file-Uploaded_example :
    (meta : FileMetadata) × (sm' : StorageManager) × (disk' : Disk) × (upload_file toy_sum slash
        manager good_disk file words words
      ≡ some (uploaded meta sm' disk'))
    × Uploaded toy_sum slash file words meta sm'
upload_file-Uploaded_example =
    upload_file-Uploaded toy_sum slash toy_sum-size manager good_disk file words words
      good_disk-IsHealthy (omega arith) (omega arith) bloom-IsValid manager-Tracked

slash-IsJoining : IsJoining slash
slash-IsJoining = record {
  names = λ dir a b _ _ e. ap (drop 1) ((append_split dir (b'/' ∷ a) dir (b'/' ∷ b) refl e).1);
}

-- A disk that makes every directory and fails every write, half way.
abbrev full_disk : Disk
full_disk = record { files = []; can_make = λ dir. true; fault = λ path. some (b'h' ∷ []) }

receive_chunk-cases_example :
    (sm' : StorageManager) × (disk' : Disk) × (confirm_has_chunk sm' file 3 ≡ true)
    × (download_chunk toy_sum slash sm' full_disk file 3 ≡ some (words, compute_hash toy_sum words))
    × ((receive_chunk toy_sum slash manager full_disk file 3 words (compute_hash toy_sum words)
            ≡ received sm' disk')
          × (might_have_chunk sm' file 3 ≡ some true)
        ⊎ (receive_chunk toy_sum slash manager full_disk file 3 words (compute_hash toy_sum words)
            ≡ rejected sm' disk')
          × (sm'.bloom ≡ manager.bloom))
receive_chunk-cases_example =
    receive_chunk-cases toy_sum slash manager full_disk file 3 words (compute_hash toy_sum words)
      full_disk refl bloom-IsValid

upload_file-cases_example :
    ((meta : FileMetadata) × (sm' : StorageManager) × (disk' : Disk) × (upload_file toy_sum slash
          manager full_disk file words words
        ≡ some (uploaded meta sm' disk'))
      × Uploaded toy_sum slash file words meta sm'
      × Spared file manager sm')
    ⊎ ((sm' : StorageManager) × (disk' : Disk) × (upload_file toy_sum slash manager full_disk file
            words words
          ≡ some (upload_error sm' disk'))
        × (sm'.store.files ≡ manager.store.files)
        × (sm'.bloom ≡ manager.bloom)
        × Spared file manager sm')
upload_file-cases_example =
    upload_file-cases toy_sum slash toy_sum-size manager full_disk file words words (omega arith)
      (omega arith) bloom-IsValid manager-Tracked

upload_file-Restarted_example :
    (meta : FileMetadata) × (sm' : StorageManager) × (disk' : Disk) × (fresh : StorageManager)
    × (upload_file toy_sum slash manager good_disk file words words
        ≡ some (uploaded meta sm' disk'))
    × (new_storage_manager toy_float disk' 2 sm'.store.base_dir ≡ made fresh)
    × Restarted toy_sum slash file words meta disk' fresh
unfolding optimal_num_bits
upload_file-Restarted_example =
    upload_file-Restarted toy_sum slash toy_float toy_float-IsLawful slash-IsJoining toy_sum-size
      manager good_disk 2 file words words good_disk-IsHealthy (omega arith) (omega arith)
      bloom-IsValid manager-Tracked (omega arith) (omega arith)
