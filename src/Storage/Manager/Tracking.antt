-- ===== src/Storage/Manager/Tracking.antt =====
-- The filter in step with the store.
use file_sharing_system_with.Prelude.{◌^◌, ◌<◌, ◌≡◌, true, some, Bytes}
use file_sharing_system_with.Word.{Int32}
use file_sharing_system_with.Storage.Manager.{StorageManager, confirm_has_chunk, might_have_chunk}

-- The filter might contain every chunk the store has in memory.
pub record Tracked (sm : StorageManager) : Type 0 where
  pub seen :
      (f : Bytes) (i : Int32)
      → i < 2 ^ 32
      → confirm_has_chunk sm f i ≡ true
      → might_have_chunk sm f i ≡ some true
