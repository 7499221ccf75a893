-- ===== src/Storage/Chunk/Split.antt =====
-- `SplitFile` stores every chunk, and what it stores is put together to the same text.
use file_sharing_system_with.Prelude.{
  ltb, ℕ, zero, suc, ◌+◌, ◌-◌, ◌*◌, ◌^◌, ◌≤◌, ◌≡◌, refl, true, false, none, some, List, [], Bytes,
  bytes_eq, length, arith, ◌∙◌, ap,
}
use file_sharing_system_with.GoMap.{GoMap, lookup, insert}
use file_sharing_system_with.GoMap.Laws.{lookup-insert_same}
use file_sharing_system_with.Storage.Disk.{IsHealthy, Disk}
use file_sharing_system_with.Storage.Hash.{root_hash}
use file_sharing_system_with.Storage.Hash.Root.{root_hash-nil, root_hash-total}
use file_sharing_system_with.Storage.Chunk.{
  default_chunk_size, Chunk, FileMetadata, ChunkStore, num_chunks, rounds32, split, split_error,
  Splitting, split_loop, make_metadata, split_file, finish_split, get_file_metadata, assemble_loop,
  assemble_file,
}
use file_sharing_system_with.Storage.Chunk.Slices.{num_chunks-covers}
use file_sharing_system_with.Storage.Chunk.Assemble.{Stored, assemble_loop-Stored}
use file_sharing_system_with.Storage.Chunk.Loop.{split_loop-Stored, split_loop-healthy}

module _ (sha256 : Bytes → Bytes) (join : Bytes → Bytes → Bytes) where
  -- The outcome of `split_file` when every chunk is written.
  pub split_file-done :
      (cs : ChunkStore) (disk : Disk) (file_id file_name text root : Bytes) (s : Splitting)
      → ltb (num_chunks text) (2 ^ 31) ≡ true
      → split_loop sha256 join file_id text
          (rounds32 (num_chunks text))
          0
          (record { store = cs; disk = disk; chunks = []; hashes = [] })
        ≡ (s, true)
      → root_hash sha256 s.hashes ≡ some root
      → split_file sha256 join cs disk file_id file_name text
        ≡ some (
          split (make_metadata file_id file_name text s.hashes root) s.chunks,
          record (s.store) {
            files =
                insert file_id (make_metadata file_id file_name text s.hashes root) s.store.files;
          },
          s.disk,
        )
  unfolding split_file finish_split
  split_file-done cs disk file_id file_name text root s fits runs hashed =
      rw (fits, split_file)
        (ap (finish_split sha256 join file_id file_name text) runs ∙ rw (hashed, finish_split))

  -- The outcome of `split_file` when a chunk is not written.
  pub split_file-failed :
      (cs : ChunkStore) (disk : Disk) (file_id file_name text : Bytes) (s : Splitting)
      → ltb (num_chunks text) (2 ^ 31) ≡ true
      → split_loop sha256 join file_id text
          (rounds32 (num_chunks text))
          0
          (record { store = cs; disk = disk; chunks = []; hashes = [] })
        ≡ (s, false)
      → split_file sha256 join cs disk file_id file_name text ≡ some (split_error, s.store, s.disk)
  unfolding split_file finish_split
  split_file-failed cs disk file_id file_name text s fits runs =
      rw (fits, split_file) (ap (finish_split sha256 join file_id file_name text) runs)

  -- An empty text has no chunk, and an empty root.
  pub split_file-nil :
      (cs : ChunkStore) (disk : Disk) (file_id file_name : Bytes)
      → (meta : FileMetadata) × (cs' : ChunkStore) × (split_file sha256 join cs disk file_id
            file_name []
          ≡ some (split meta [], cs', disk))
        × (meta.root_hash ≡ [])
  unfolding split_file finish_split split_loop num_chunks rounds32 default_chunk_size make_metadata
  split_file-nil cs disk file_id file_name =
      let meta = make_metadata file_id file_name [] [] [] in
      (
        meta,
        record cs { files = insert file_id meta cs.files },
        rw (root_hash-nil sha256, finish_split) refl,
        refl,
      )

  Stored-files :
      (s : ChunkStore) (files : GoMap Bytes FileMetadata) (file_id text : Bytes) (n i : ℕ)
      → Stored s file_id text n i
      → Stored (record s { files = files }) file_id text n i
  Stored-files s files file_id text zero i h = tt
  Stored-files s files file_id text (suc n) i h =
      (h.0, Stored-files s files file_id text n (i + 1) h.1)

  assemble_file-found :
      (cs : ChunkStore) (disk : Disk) (file_id : Bytes) (meta : FileMetadata)
      → lookup file_id cs.files ≡ some meta
      → assemble_file sha256 join cs disk file_id
        ≡ assemble_loop sha256 join cs disk file_id (rounds32 meta.total_chunks) 0 []
  unfolding assemble_file get_file_metadata
  assemble_file-found cs disk file_id meta e = rw (e, assemble_file)

  pub assemble_file-unknown :
      (cs : ChunkStore) (disk : Disk) (file_id : Bytes)
      → lookup file_id cs.files ≡ none
      → assemble_file sha256 join cs disk file_id ≡ none
  unfolding assemble_file get_file_metadata
  assemble_file-unknown cs disk file_id e = rw (e, assemble_file)

  abbrev pub before : ChunkStore → Disk → Splitting
  before cs disk = record { store = cs; disk = disk; chunks = []; hashes = [] }

  -- What `split_file` leaves in the store, from the end of its loop.
  abbrev pub after : Bytes → Bytes → Bytes → Bytes → Splitting → ChunkStore
  after file_id file_name text root s = record (s.store) {
    files = insert file_id (make_metadata file_id file_name text s.hashes root) s.store.files;
  }

  -- On a healthy disk the loop runs through, and the whole returns.
  split_file-runs :
      (cs : ChunkStore) (disk : Disk) (file_id file_name text : Bytes)
      → IsHealthy disk
      → length text ≤ (2 ^ 31 - 1) * 2 ^ 18
      → (s : Splitting) × (root : Bytes) × (split_loop sha256 join file_id text
            (rounds32 (num_chunks text))
            0
            (before cs disk)
          ≡ (s, true))
        × (root_hash sha256 s.hashes ≡ some root)
        × (split_file sha256 join cs disk file_id file_name text
            ≡ some (
              split (make_metadata file_id file_name text s.hashes root) s.chunks,
              after file_id file_name text root s,
              s.disk,
            ))
  split_file-runs cs disk file_id file_name text healthy small =
      let n = rounds32 (num_chunks text) in
      let (s, runs) = split_loop-healthy sha256 join file_id text n 0 (before cs disk) healthy in
      let (root, hashed) = root_hash-total sha256 s.hashes in
      let (fits, _, _) = num_chunks-covers text small in
      (
        s,
        root,
        runs,
        hashed,
        split_file-done cs disk file_id file_name text root s fits runs hashed,
      )

  pub split_loop-all :
      (cs : ChunkStore) (disk : Disk) (file_id file_name text root : Bytes) (s : Splitting)
      → length text ≤ (2 ^ 31 - 1) * 2 ^ 18
      → split_loop sha256 join file_id text (rounds32 (num_chunks text)) 0 (before cs disk)
        ≡ (s, true)
      → Stored (after file_id file_name text root s) file_id text (rounds32 (num_chunks text)) 0
  split_loop-all cs disk file_id file_name text root s small runs =
      let n = rounds32 (num_chunks text) in
      let (_, bound, _) = num_chunks-covers text small in
      let filled =
        split_loop-Stored sha256 join file_id text n 0 (before cs disk) s (omega arith) runs in
      Stored-files s.store (after file_id file_name text root s).files file_id text n 0 filled

  pub assemble_file-after :
      (cs : ChunkStore) (disk later : Disk) (file_id file_name text root : Bytes) (s : Splitting)
      → length text ≤ (2 ^ 31 - 1) * 2 ^ 18
      → split_loop sha256 join file_id text (rounds32 (num_chunks text)) 0 (before cs disk)
        ≡ (s, true)
      → assemble_file sha256 join (after file_id file_name text root s) later file_id ≡ some text
  unfolding make_metadata default_chunk_size
  assemble_file-after cs disk later file_id file_name text root s small runs =
      let n = rounds32 (num_chunks text) in
      let meta = make_metadata file_id file_name text s.hashes root in
      let (_, _, covers) = num_chunks-covers text small in
      let e : 0 + n ≡ n = omega arith in
      let covers' : length text ≤ (0 + n) * default_chunk_size = rw e covers in
      let cs' = after file_id file_name text root s in
      assemble_file-found cs' later file_id meta (lookup-insert_same file_id meta s.store.files)
      ∙ assemble_loop-Stored sha256 join cs' later file_id text n 0 []
          (split_loop-all cs disk file_id file_name text root s small runs) covers'

  -- On a disk where every directory is made and every write succeeds, splitting a text of at most
  -- (2 ^ 31 - 1) * 2 ^ 18 bytes returns metadata and chunks, and from the store it leaves the file is
  -- assembled to the same text, whatever happens to the disk in between.
  pub assemble_file-split_file :
      (cs : ChunkStore) (disk later : Disk) (file_id file_name text : Bytes)
      → IsHealthy disk
      → length text ≤ (2 ^ 31 - 1) * 2 ^ 18
      → (meta : FileMetadata) × (chunks : List Chunk) × (cs' : ChunkStore) × (disk' : Disk)
        × (split_file sha256 join cs disk file_id file_name text
            ≡ some (split meta chunks, cs', disk'))
        × (assemble_file sha256 join cs' later file_id ≡ some text)
  assemble_file-split_file cs disk later file_id file_name text healthy small =
      let (s, root, runs, hashed, result) =
        split_file-runs cs disk file_id file_name text healthy small in
      (
        make_metadata file_id file_name text s.hashes root,
        s.chunks,
        after file_id file_name text root s,
        s.disk,
        result,
        assemble_file-after cs disk later file_id file_name text root s small runs,
      )
