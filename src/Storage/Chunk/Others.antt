-- ===== src/Storage/Chunk/Others.antt =====
-- What the loop of `SplitFile` leaves alone, whatever the disk does: the metadata, the directory, and
-- the chunks of every other file.
use file_sharing_system_with.Prelude.{
  ℕ, zero, suc, ◌+◌, ◌^◌, ◌≤◌, ◌<◌, ◌≡◌, refl, ◌≢◌, inl, inr, Bytes, bytes_eq, bytes_beq_iff, arith,
  Bool-cases, ◌∙◌,
}
use file_sharing_system_with.Word.{Int32}
use file_sharing_system_with.GoMap.{lookup}
use file_sharing_system_with.GoMap.Laws.{lookup-insert}
use file_sharing_system_with.Storage.Chunk.{
  ChunkStore, chunk_store_key, chunk_data, put_chunk, Splitting, split_round, split_loop,
}
use file_sharing_system_with.Storage.Chunk.Keys.{chunk_store_key-injective}

-- `cs'` differs from `cs` in chunks of the file at most.
pub record Aside (file_id : Bytes) (cs cs' : ChunkStore) : Type 0 where
  pub directory : cs'.base_dir ≡ cs.base_dir
  pub metadata : cs'.files ≡ cs.files
  pub others :
      (f : Bytes) (j : Int32)
      → f ≢ file_id
      → j < 2 ^ 32
      → lookup (chunk_store_key f j) cs'.chunks ≡ lookup (chunk_store_key f j) cs.chunks

Aside-refl : (file_id : Bytes) (cs : ChunkStore) → Aside file_id cs cs
Aside-refl file_id cs = record { directory = refl; metadata = refl; others = λ f j ne hj. refl }

Aside-trans :
    (file_id : Bytes) (a b c : ChunkStore)
    → Aside file_id a b
    → Aside file_id b c
    → Aside file_id a c
Aside-trans file_id a b c ab bc = record {
  directory = bc.directory ∙ ab.directory;
  metadata = bc.metadata ∙ ab.metadata;
  others = λ f j ne hj. bc.others f j ne hj ∙ ab.others f j ne hj;
}

pub put_chunk-Aside :
    (cs : ChunkStore) (file_id : Bytes) (i : Int32) (content : Bytes)
    → i < 2 ^ 32
    → Aside file_id cs (put_chunk cs file_id i content)
unfolding put_chunk
put_chunk-Aside cs file_id i content hi = record {
  directory = refl;
  metadata = refl;
  others = λ f j ne hj. ground (
    arith,
    lookup-insert (chunk_store_key file_id i) (chunk_store_key f j) content cs.chunks,
    bytes_beq_iff (chunk_store_key file_id i) (chunk_store_key f j),
    chunk_store_key-injective file_id f i j hi hj,
  );
}

module _ (sha256 : Bytes → Bytes) (join : Bytes → Bytes → Bytes) (file_id text : Bytes) where
  split_round-Aside :
      (i : ℕ) (s : Splitting)
      → i < 2 ^ 32
      → Aside file_id s.store (split_round sha256 join file_id text i s).0.store
  unfolding split_round
  split_round-Aside i s hi = put_chunk-Aside s.store file_id i (chunk_data i text) hi

  pub split_loop-Aside :
      (n i : ℕ) (s : Splitting)
      → i + n ≤ 2 ^ 32
      → Aside file_id s.store (split_loop sha256 join file_id text n i s).0.store
  unfolding split_loop
  split_loop-Aside zero i s l = Aside-refl file_id s.store
  split_loop-Aside (suc n) i s l =
      let s' = (split_round sha256 join file_id text i s).0 in
      let one = split_round-Aside i s (omega arith) in
      let rest = split_loop-Aside n (i + 1) s' (omega arith) in
      elim (Bool-cases (split_round sha256 join file_id text i s).1) [
        | inl done ↦ rw done (Aside-trans file_id s.store s'.store _ one rest)
        | inr failed ↦ rw failed one
      ]
