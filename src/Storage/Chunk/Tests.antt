-- ===== src/Storage/Chunk/Tests.antt =====
-- Runs of the chunk store, and the theorems at concrete stores.
use file_sharing_system_with.Prelude.{
  ◌≡◌, refl, true, false, ◌++◌, none, some, List, [], ◌∷◌, Bytes, replicate, arith,
}
use file_sharing_system_with.Storage.Disk.{Disk, IsHealthy}
use file_sharing_system_with.Storage.Chunk.{
  Chunk, FileMetadata, ChunkStore, split, split_file, assemble_file,
}
use file_sharing_system_with.Storage.Chunk.Split.{assemble_file-split_file}

-- A stand-in for SHA-256: the sum is the first byte, 32 times.
abbrev toy_sum : Bytes → Bytes
toy_sum [] = replicate 32 0
toy_sum (b ∷ bs) = replicate 32 b

abbrev slash : Bytes → Bytes → Bytes
slash dir name = dir ++ b'/' ∷ name

abbrev empty_store : ChunkStore
empty_store = record { base_dir = b'd' ∷ []; files = []; chunks = [] }

abbrev good_disk : Disk
good_disk = record { files = []; can_make = λ dir. true; fault = λ path. none }

abbrev dead_disk : Disk
dead_disk = record { files = []; can_make = λ dir. false; fault = λ path. some [] }

good_disk-IsHealthy : IsHealthy good_disk
good_disk-IsHealthy = record { makes = λ dir. refl; writes = λ path. refl }

abbrev file : Bytes
file = b'f' ∷ []

abbrev words : Bytes
words = b'h' ∷ b'i' ∷ []

assemble_file-split_file_example :
    (meta : FileMetadata) × (chunks : List Chunk) × (cs' : ChunkStore) × (disk' : Disk)
    × (split_file toy_sum slash empty_store good_disk file words words
        ≡ some (split meta chunks, cs', disk'))
    × (assemble_file toy_sum slash cs' dead_disk file ≡ some words)
assemble_file-split_file_example =
    assemble_file-split_file toy_sum slash empty_store good_disk dead_disk file words words
      good_disk-IsHealthy (omega arith)
