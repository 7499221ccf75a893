-- ===== src/Storage/Disk.antt =====
-- The part of package `os` that the chunk store uses. What directories can be made and which writes
-- fail is up to the system, so it is part of the state; a failed write may leave part of a file.
use file_sharing_system_with.Prelude.{Bool, true, false, ◌≡◌, Option, none, some, Bytes, bytes_eq}
use file_sharing_system_with.GoMap.{GoMap, lookup, insert}

pub record Disk : Type 0 where
  pub files : GoMap Bytes Bytes
  pub can_make : Bytes → Bool
  pub fault : Bytes → Option Bytes

-- os.MkdirAll: whether it succeeds.
unfoldable pub mkdir_all : Bytes → Disk → Bool
mkdir_all dir disk = disk.can_make dir

-- os.WriteFile: the disk after it, and whether it succeeds.
unfoldable pub write_file : Bytes → Bytes → Disk → Disk × Bool
write_file path content disk = elim (disk.fault path) [
  | none ↦ (record disk { files = insert path content disk.files }, true)
  | some left ↦ (record disk { files = insert path left disk.files }, false)
]

-- os.ReadFile
unfoldable pub read_file : Bytes → Disk → Option Bytes
read_file path disk = lookup path disk.files

-- Every directory can be made, and every write succeeds.
pub record IsHealthy (disk : Disk) : Type 0 where
  pub makes : (dir : Bytes) → disk.can_make dir ≡ true
  pub writes : (path : Bytes) → disk.fault path ≡ none
