-- ===== src/Storage/Manager/Upload.antt =====
-- `UploadFile` of a text that is not empty.
use mathlib.Core.List.{Memᴰ}
use mathlib.Core.List.Memᴰ
use mathlib.Core.Path.{ap₂}
use file_sharing_system_with.Prelude.{
  ℕ, zero, suc, ◌-◌, ◌*◌, ◌^◌, ◌≤◌, ◌<◌, ◌≡◌, refl, inl, inr, true, false, ◌⊎◌, some, List, map,
  Bytes, length, get_elem?, ltb, arith, ◌∙◌, ap, sym, subst,
}
use file_sharing_system_with.Word.{Int32}
use file_sharing_system_with.Storage.Disk.{Disk, IsHealthy}
use file_sharing_system_with.Storage.Hash.{compute_hash, root_hash, verify_file_integrity}
use file_sharing_system_with.Storage.Hash.Check.{IsDigest}
use file_sharing_system_with.Storage.Hash.Root.{
  root_hash-IsDigest, root_hash-total, verify_file_integrity-root,
}
use file_sharing_system_with.Storage.Bloom.{BloomFilter, add_all, might_contain}
use file_sharing_system_with.Storage.Bloom.Add.{IsValid, add_all-might_contain}
use file_sharing_system_with.Storage.Chunk.{
  default_chunk_size, Chunk, FileMetadata, ChunkStore, Splitting, split_loop, num_chunks, rounds32,
  make_metadata, assemble_file, has_chunk, chunk_data,
}
use file_sharing_system_with.Storage.Chunk.Slices.{num_chunks-covers}
use file_sharing_system_with.Storage.Chunk.Assemble.{
  Stored-lookup, Stored-has_chunk, get_chunk-stored,
}
use file_sharing_system_with.Storage.Chunk.Split.{
  before, after, split_file-done, split_loop-all, assemble_file-after,
}
use file_sharing_system_with.Storage.Chunk.Loop.{split_loop-healthy}
use file_sharing_system_with.Storage.Chunk.Contents.{
  file_chunks, Collected, split_loop-Collected, file_chunks-IsDigest, file_chunks-get_elem?,
  file_chunks-length,
}
use file_sharing_system_with.Storage.Manager.{
  StorageManager, chunk_key, key_of, might_have_chunk, confirm_has_chunk, uploaded, note_chunks,
  upload_file, download_chunk,
}
use file_sharing_system_with.Storage.Manager.Tracking.{Tracked}

-- A text that is not empty has a chunk, and the root of its hashes is a digest.
some_chunk :
    (text : Bytes)
    → 0 < length text
    → length text ≤ rounds32 (num_chunks text) * 2 ^ 18
    → 0 < rounds32 (num_chunks text)
some_chunk text some_text covers = ground arith

-- What a good upload leaves: the file is assembled from the store; each of its chunks is there, is
-- listed with its hash and is served with it; the metadata passes the integrity check; and the
-- filter is valid and in step.
pub record Uploaded (sha256 : Bytes → Bytes) (join : Bytes → Bytes → Bytes) (file_id text : Bytes)
    (meta : FileMetadata) (sm : StorageManager) : Type 0 where
  pub named : meta.file_id ≡ file_id
  pub sized : meta.total_chunks ≡ num_chunks text
  pub counted : length meta.chunk_hashes ≡ rounds32 (num_chunks text)
  pub whole : (later : Disk) → assemble_file sha256 join sm.store later file_id ≡ some text
  pub present : (i : ℕ) → i < rounds32 meta.total_chunks → confirm_has_chunk sm file_id i ≡ true
  pub listed :
      (i : ℕ)
      → i < rounds32 meta.total_chunks
      → get_elem? meta.chunk_hashes i ≡ some (compute_hash sha256 (chunk_data i text))
  pub served :
      (later : Disk) (i : ℕ)
      → i < rounds32 meta.total_chunks
      → download_chunk sha256 join sm later file_id i
        ≡ some (chunk_data i text, compute_hash sha256 (chunk_data i text))
  pub checks : verify_file_integrity sha256 meta.chunk_hashes meta.root_hash ≡ some true
  pub valid_filter : IsValid sm.bloom
  pub tracked : Tracked sm

module _ (sha256 : Bytes → Bytes) (join : Bytes → Bytes → Bytes) where
  root-IsDigest :
      ((t : Bytes) → length (sha256 t) ≡ 32)
      → (file_id text root : Bytes) (n : ℕ) → 0 < n
      → root_hash sha256 (map (λ c. c.hash) (file_chunks sha256 join file_id text n 0)) ≡ some root
      → IsDigest root
  unfolding file_chunks
  root-IsDigest digest file_id text root zero pos e = absurd (omega arith)
  root-IsDigest digest file_id text root (suc n) pos e =
      root_hash-IsDigest sha256 digest _ _ root
        (file_chunks-IsDigest sha256 join file_id text digest (suc n) 0) e

  -- The filter after the upload is in step with the store.
  Tracked-after :
      (sm sm' : StorageManager) (file_id text : Bytes) (top : ℕ) (s : Splitting)
      → Tracked sm
      → Collected sha256 join file_id text sm.store top top s
      → ((f : Bytes) (j : Int32) → confirm_has_chunk sm' f j ≡ has_chunk s.store f j)
      → ((k : Bytes)
          → Memᴰ k (map key_of s.chunks) ⊎ (might_contain k sm.bloom ≡ some true)
          → might_contain k sm'.bloom ≡ some true)
      → Tracked sm'
  unfolding might_have_chunk key_of confirm_has_chunk
  Tracked-after sm sm' file_id text top s tracked c same holds = record {
    seen = λ f j hj h. elim (c.known f j hj (sym (same f j) ∙ h)) [
      | inl before ↦ holds (chunk_key f j) (inr (tracked.seen f j hj before))
      | inr (d, m, e, e') ↦
          subst (λ k. might_contain k sm'.bloom ≡ some true) (ap₂ chunk_key e e')
            (holds (key_of d) (inl (Memᴰ.map key_of m)))
    ];
  }

  -- The last part of an upload, once the filter has the keys and the root is long enough.
  note_chunks-uploaded :
      (sm : StorageManager) (meta : FileMetadata) (chunks : List Chunk) (store : ChunkStore)
      (disk : Disk) (bloom : BloomFilter)
      → add_all (map key_of chunks) sm.bloom ≡ some bloom
      → IsDigest meta.root_hash
      → note_chunks sm meta chunks store disk
        ≡ uploaded meta (record sm { store = store; bloom = bloom }) disk
  unfolding note_chunks
  note_chunks-uploaded sm meta chunks store disk bloom added long =
      let test : ltb (length meta.root_hash) 16 ≡ false = ground arith in
      rw (added, note_chunks, test)

  -- An upload whose loop of `SplitFile` ran through.
  pub upload_file-after :
      (digest : (t : Bytes) → length (sha256 t) ≡ 32) (sm : StorageManager) (disk : Disk)
      (file_id file_name text : Bytes) (s : Splitting)
      → 0 < length text
      → length text ≤ (2 ^ 31 - 1) * 2 ^ 18
      → IsValid sm.bloom
      → Tracked sm
      → split_loop sha256 join file_id text
          (rounds32 (num_chunks text))
          0
          (before sha256 join sm.store disk)
        ≡ (s, true)
      → (root : Bytes) × (bloom : BloomFilter) × (let meta =
            make_metadata file_id file_name text s.hashes root in
          let sm' : StorageManager = record sm {
            store = after sha256 join file_id file_name text root s;
            bloom = bloom;
          } in
          (upload_file sha256 join sm disk file_id file_name text ≡ some (uploaded meta sm' s.disk))
          × Uploaded sha256 join file_id text meta sm')
  unfolding upload_file download_chunk make_metadata confirm_has_chunk has_chunk default_chunk_size
  upload_file-after digest sm disk file_id file_name text s some_text small v tracked runs =
      let n = rounds32 (num_chunks text) in
      let (root, hashed) = root_hash-total sha256 s.hashes in
      let (fits, bound, covers) = num_chunks-covers text small in
      let result =
        split_file-done sha256 join sm.store disk file_id file_name text root s fits runs hashed in
      let (listed, c) =
        split_loop-Collected sha256 join file_id text sm.store disk n s (omega arith) runs in
      let (bloom, added, valid, holds) = add_all-might_contain (map key_of s.chunks) sm.bloom v in
      let meta = make_metadata file_id file_name text s.hashes root in
      let store = after sha256 join file_id file_name text root s in
      let sm' : StorageManager = record sm { store = store; bloom = bloom } in
      let same = c.hashes ∙ ap (map (λ d. d.hash)) listed in
      let all = split_loop-all sha256 join sm.store disk file_id file_name text root s small runs in
      let long =
        root-IsDigest digest file_id text root n (some_chunk text some_text covers)
          (ap (root_hash sha256) (sym same) ∙ hashed) in
      (
        root,
        bloom,
        (
          rw (result, upload_file)
              (ap some (note_chunks-uploaded sm meta s.chunks store s.disk bloom added long)),
          record {
            named = refl;
            sized = refl;
            counted = ap length same ∙ file_chunks-length sha256 join file_id text n 0;
            whole = λ later.
                assemble_file-after sha256 join sm.store disk later file_id file_name text root s
                  small runs;
            present = λ i lt. Stored-has_chunk store file_id text n i all (omega arith);
            listed = λ i lt.
                ap (λ hashes. get_elem? hashes i) same
                ∙ file_chunks-get_elem? sha256 join file_id text n 0 i i lt (omega arith);
            served = λ later i lt.
                let stored =
                  Stored-lookup store file_id text n 0 i all (omega arith) (omega arith) in
                rw (get_chunk-stored sha256 join store later file_id text i stored, download_chunk);
            checks = verify_file_integrity-root sha256 s.hashes root hashed;
            valid_filter = valid;
            tracked = Tracked-after sm sm' file_id text n s tracked c (λ f j. refl) holds;
          },
        ),
      )

  -- With a hash of 32 bytes, on a disk where everything succeeds, with a valid filter that is in step
  -- with the store: uploading a text of 1 to (2 ^ 31 - 1) * 2 ^ 18 bytes succeeds. Whatever happens to
  -- the disk then, the file is assembled to the text; each of its chunks is there, and served with the
  -- hash that the metadata lists; the hashes in the
  -- metadata pass the integrity check against its root; and the filter is valid and in step again.
  pub upload_file-Uploaded :
      (digest : (t : Bytes) → length (sha256 t) ≡ 32) (sm : StorageManager) (disk : Disk)
      (file_id file_name text : Bytes)
      → IsHealthy disk
      → 0 < length text
      → length text ≤ (2 ^ 31 - 1) * 2 ^ 18
      → IsValid sm.bloom
      → Tracked sm
      → (meta : FileMetadata) × (sm' : StorageManager) × (disk' : Disk) × (upload_file sha256 join
            sm disk file_id file_name text
          ≡ some (uploaded meta sm' disk'))
        × Uploaded sha256 join file_id text meta sm'
  upload_file-Uploaded digest sm disk file_id file_name text healthy some_text small v tracked =
      let n = rounds32 (num_chunks text) in
      let (s, runs) =
        split_loop-healthy sha256 join file_id text n 0 (before sha256 join sm.store disk)
          healthy in
      let (root, bloom, done_up) =
        upload_file-after digest sm disk file_id file_name text s some_text small v tracked runs in
      (
        make_metadata file_id file_name text s.hashes root,
        record sm { store = after sha256 join file_id file_name text root s; bloom = bloom },
        s.disk,
        done_up.0,
        done_up.1,
      )
