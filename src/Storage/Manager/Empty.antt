-- ===== src/Storage/Manager/Empty.antt =====
-- `UploadFile` on an empty text.
use file_sharing_system_with.Prelude.{◌≡◌, refl, some, [], Bytes}
use file_sharing_system_with.Storage.Disk.{Disk}
use file_sharing_system_with.Storage.Chunk.Split.{split_file-nil}
use file_sharing_system_with.Storage.Manager.{
  StorageManager, upload_file, upload_panic, note_chunks,
}
use file_sharing_system_with.Storage.Bloom.Add.{add_all-nil}

-- Whatever the manager and the disk are, uploading an empty text panics.
pub upload_file-nil :
    (sha256 : Bytes → Bytes) (join : Bytes → Bytes → Bytes) (sm : StorageManager) (disk : Disk)
    (file_id file_name : Bytes)
    → upload_file sha256 join sm disk file_id file_name [] ≡ some upload_panic
unfolding upload_file note_chunks
upload_file-nil sha256 join sm disk file_id file_name =
    let (meta, store, e, no_root) = split_file-nil sha256 join sm.store disk file_id file_name in
    rw (e, upload_file, add_all-nil sm.bloom, note_chunks, no_root) refl
