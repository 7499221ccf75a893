-- ===== src/Storage/Chunk.antt =====
-- internal/storage/chunk.go: `ChunkStore`. Every method takes the lock for its whole update of the
-- maps, so a method is one step from a store and a disk to the next. SHA-256 and filepath.Join are
-- the arguments `sha256` and `join`.
pub mod Slices
pub mod Keys
pub mod Loop
pub mod Others
pub mod Persist
pub mod Split
pub mod Assemble
pub mod Download
pub mod Contents
mod Tests
use file_sharing_system_with.Prelude.{
  ℕ, zero, suc, ◌+◌, ◌-◌, ◌*◌, ◌/◌, ◌^◌, Bool, true, false, not, Option, none, some, List, [], ◌∷◌,
  ◌++◌, Bytes, bytes_eq, length, take, drop, ltb, if◌then◌else◌,
}
use file_sharing_system_with.Word.{Int32, Int64, to_int32}
use file_sharing_system_with.GoMap.{GoMap, lookup, insert, has}
use file_sharing_system_with.Fmt.{format_int32}
use file_sharing_system_with.Storage.Disk.{Disk, mkdir_all, write_file, read_file}
use file_sharing_system_with.Storage.Hash.{
  compute_hash, verify_chunk, Verdict, valid, mismatch, root_hash,
}

unfoldable pub default_chunk_size : ℕ
default_chunk_size = 256 * 1024

pub record Chunk : Type 0 where
  pub file_id : Bytes
  pub index : Int32
  pub content : Bytes
  pub hash : Bytes
  pub size : Int32

pub record FileMetadata : Type 0 where
  pub file_id : Bytes
  pub file_name : Bytes
  pub total_size : Int64
  pub total_chunks : Int32
  pub chunk_hashes : List Bytes
  pub root_hash : Bytes

pub record ChunkStore : Type 0 where
  pub base_dir : Bytes
  pub files : GoMap Bytes FileMetadata
  pub chunks : GoMap Bytes Bytes

-- `none` where the directory cannot be made.
unfoldable pub new_chunk_store : Bytes → Disk → Option ChunkStore
new_chunk_store base_dir disk =
    if mkdir_all base_dir disk
    then some (record { base_dir = base_dir; files = []; chunks = [] })
    else none

-- fmt.Sprintf("%s:%d", fileID, index)
unfoldable pub chunk_store_key : Bytes → Int32 → Bytes
chunk_store_key file_id index = file_id ++ b':' ∷ format_int32 index

-- fmt.Sprintf("chunk_%d", index)
pub chunk_name : Int32 → Bytes
chunk_name index = b'c' ∷ b'h' ∷ b'u' ∷ b'n' ∷ b'k' ∷ b'_' ∷ format_int32 index

-- data[start:end]
pub slice : ℕ → ℕ → Bytes → Bytes
slice start end text = take (end - start) (drop start text)

-- The rounds of `for i := int32(0); i < n; i++`: none if `n` is negative.
pub rounds32 : Int32 → ℕ
rounds32 n = if ltb n (2 ^ 31) then n else 0

pub num_chunks : Bytes → Int32
num_chunks text = to_int32 ((length text + default_chunk_size - 1) / default_chunk_size)

-- data[start:end] of round `i`.
pub chunk_data : ℕ → Bytes → Bytes
chunk_data i text =
    let start = i * default_chunk_size in
    let end = start + default_chunk_size in
    slice start (if ltb (length text) end then length text else end) text

pub data SplitResult : Type 0 where
  split : FileMetadata → List Chunk → SplitResult
  split_error : SplitResult
  split_panic : SplitResult

unfoldable pub has_chunk : ChunkStore → Bytes → Int32 → Bool
has_chunk cs file_id index = has (chunk_store_key file_id index) cs.chunks

pub put_chunk : ChunkStore → Bytes → Int32 → Bytes → ChunkStore
put_chunk cs file_id index content = record cs {
  chunks = insert (chunk_store_key file_id index) content cs.chunks;
}

-- The variables of the loop of `SplitFile`.
pub record Splitting : Type 0 where
  pub store : ChunkStore
  pub disk : Disk
  pub chunks : List Chunk
  pub hashes : List Bytes

unfoldable pub make_metadata : Bytes → Bytes → Bytes → List Bytes → Bytes → FileMetadata
make_metadata file_id file_name text hashes root = record {
  file_id = file_id;
  file_name = file_name;
  total_size = length text;
  total_chunks = num_chunks text;
  chunk_hashes = hashes;
  root_hash = root;
}

unfoldable pub get_file_metadata : ChunkStore → Bytes → Option FileMetadata
get_file_metadata cs file_id = lookup file_id cs.files

module _ (sha256 : Bytes → Bytes) (join : Bytes → Bytes → Bytes) where
  unfoldable pub chunk_path : ChunkStore → Bytes → Int32 → Bytes
  chunk_path cs file_id index = join (join cs.base_dir file_id) (chunk_name index)

  pub persist_chunk : ChunkStore → Bytes → Int32 → Bytes → Disk → Disk × Bool
  persist_chunk cs file_id index content disk =
      if not (mkdir_all (join cs.base_dir file_id) disk)
      then (disk, false)
      else write_file (chunk_path cs file_id index) content disk

  -- From the map, or else from the disk.
  unfoldable pub get_chunk : ChunkStore → Disk → Bytes → Int32 → Option Bytes
  get_chunk cs disk file_id index = elim (lookup (chunk_store_key file_id index) cs.chunks) [
    | some content ↦ some content
    | none ↦ read_file (chunk_path cs file_id index) disk
  ]

  pub make_chunk : Bytes → Int32 → Bytes → Chunk
  make_chunk file_id index content = record {
    file_id = file_id;
    index = index;
    content = content;
    hash = compute_hash sha256 content;
    size = to_int32 (length content);
  }

  pub split_round : Bytes → Bytes → ℕ → Splitting → Splitting × Bool
  split_round file_id text i s =
      let content = chunk_data i text in
      let chunk = make_chunk file_id i content in
      let store = put_chunk s.store file_id i content in
      let (disk, done) = persist_chunk store file_id i content s.disk in
      (
        record {
          store = store;
          disk = disk;
          chunks = s.chunks ++ chunk ∷ [];
          hashes = s.hashes ++ chunk.hash ∷ [];
        },
        done,
      )

  -- The loop, with `n` rounds left from `i` on; it stops at the first chunk that is not written.
  pub split_loop : Bytes → Bytes → ℕ → ℕ → Splitting → Splitting × Bool
  split_loop file_id text zero i s = (s, true)
  split_loop file_id text (suc n) i s =
      let (s', done) = split_round file_id text i s in
      let rest = split_loop file_id text n (i + 1) s' in if done then rest else (s', false)

  -- What follows the loop; `none` stands for a Merkle tree that is never built.
  pub finish_split :
      Bytes → Bytes → Bytes → Splitting × Bool → Option (SplitResult × ChunkStore × Disk)
  finish_split file_id file_name text (s, false) = some (split_error, s.store, s.disk)
  finish_split file_id file_name text (s, true) = elim (root_hash sha256 s.hashes) [
    | none ↦ none
    | some root ↦
        let metadata = make_metadata file_id file_name text s.hashes root in
        some (
          split metadata s.chunks,
          record (s.store) { files = insert file_id metadata s.store.files },
          s.disk,
        )
  ]

  -- A slice cannot be made with a negative capacity.
  pub split_file :
      ChunkStore → Disk → Bytes → Bytes → Bytes → Option (SplitResult × ChunkStore × Disk)
  split_file cs disk file_id file_name text =
      let start : Splitting = record { store = cs; disk = disk; chunks = []; hashes = [] } in
      let end = split_loop file_id text (rounds32 (num_chunks text)) 0 start in
      if ltb (num_chunks text) (2 ^ 31)
      then finish_split file_id file_name text end
      else some (split_panic, cs, disk)

  -- Whether the chunk was accepted and written.
  pub store_downloaded_chunk :
      ChunkStore → Disk → Bytes → Int32 → Bytes → Bytes → Bool × ChunkStore × Disk
  store_downloaded_chunk cs disk file_id index content expected =
      elim (verify_chunk sha256 content expected) [
        | mismatch _ _ ↦ (false, cs, disk)
        | valid ↦
            let cs' = put_chunk cs file_id index content in
            let (disk', done) = persist_chunk cs' file_id index content disk in (done, cs', disk')
      ]

  -- The loop of `AssembleFile`; `none` where a chunk is missing.
  pub assemble_loop : ChunkStore → Disk → Bytes → ℕ → ℕ → Bytes → Option Bytes
  assemble_loop cs disk file_id zero i result = some result
  assemble_loop cs disk file_id (suc n) i result = elim (get_chunk cs disk file_id i) [
    | none ↦ none
    | some content ↦ assemble_loop cs disk file_id n (i + 1) (result ++ content)
  ]

  pub assemble_file : ChunkStore → Disk → Bytes → Option Bytes
  assemble_file cs disk file_id = elim (get_file_metadata cs file_id) [
    | none ↦ none
    | some meta ↦ assemble_loop cs disk file_id (rounds32 meta.total_chunks) 0 []
  ]
