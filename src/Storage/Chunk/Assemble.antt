-- ===== src/Storage/Chunk/Assemble.antt =====
-- `AssembleFile` gives back the text whose chunks the store holds.
use mathlib.Core.List.{append-nil, append_assoc}
use file_sharing_system_with.Prelude.{
  le_cases, ◌<◌, inl, inr, true, ℕ, zero, suc, ◌+◌, ◌*◌, ◌≤◌, ◌≡◌, some, [], ◌++◌, Bytes, bytes_eq,
  length, drop, arith, ◌∙◌, ap, sym,
}
use file_sharing_system_with.GoMap.{lookup, has}
use file_sharing_system_with.Storage.Disk.{Disk}
use file_sharing_system_with.Storage.Chunk.{
  has_chunk, default_chunk_size, ChunkStore, chunk_data, chunk_store_key, get_chunk, assemble_loop,
}
use file_sharing_system_with.Storage.Chunk.Slices.{chunk_data-append-drop, drop_all}

-- The store holds the chunks of the rounds from `i` on.
abbrev pub Stored : ChunkStore → Bytes → Bytes → ℕ → ℕ → Type 0
Stored cs file_id text zero i = Unit {0}
Stored cs file_id text (suc n) i =
    (lookup (chunk_store_key file_id i) cs.chunks ≡ some (chunk_data i text))
    × Stored cs file_id text n (i + 1)

module _ (sha256 : Bytes → Bytes) (join : Bytes → Bytes → Bytes) (cs : ChunkStore) (disk : Disk)
    (file_id text : Bytes) where
  pub get_chunk-stored :
      (i : ℕ)
      → lookup (chunk_store_key file_id i) cs.chunks ≡ some (chunk_data i text)
      → get_chunk sha256 join cs disk file_id i ≡ some (chunk_data i text)
  unfolding get_chunk
  get_chunk-stored i e = rw (e, get_chunk)

  pub assemble_loop-Stored :
      (n i : ℕ) (result : Bytes)
      → Stored cs file_id text n i
      → length text ≤ (i + n) * default_chunk_size
      → assemble_loop sha256 join cs disk file_id n i result
        ≡ some (result ++ drop (i * default_chunk_size) text)
  unfolding assemble_loop
  assemble_loop-Stored zero i result s h =
      let e : i + 0 ≡ i = omega arith in
      let rest : drop (i * default_chunk_size) text ≡ [] = drop_all _ text (rw e at h) in
      ap some (sym (append-nil result) ∙ ap (λ t. result ++ t) (sym rest))
  assemble_loop-Stored (suc n) i result s h =
      let e : i + suc n ≡ i + 1 + n = omega arith in
      rw (get_chunk-stored i s.0, assemble_loop)
        (assemble_loop-Stored n (i + 1) (result ++ chunk_data i text) s.1 (rw e at h)
          ∙ ap some (
              append_assoc result (chunk_data i text) (drop ((i + 1) * default_chunk_size) text)
              ∙ ap (λ t. result ++ t) (chunk_data-append-drop i text)))

pub Stored-lookup :
    (cs : ChunkStore) (file_id text : Bytes) (n i j : ℕ)
    → Stored cs file_id text n i
    → i ≤ j
    → j < i + n
    → lookup (chunk_store_key file_id j) cs.chunks ≡ some (chunk_data j text)
Stored-lookup cs file_id text zero i j s lo hi = absurd (omega arith)
Stored-lookup cs file_id text (suc n) i j s lo hi = elim (le_cases i j lo) [
  | inl here ↦ rw (← here) s.0
  | inr later ↦ Stored-lookup cs file_id text n (i + 1) j s.1 later (omega arith)
]

pub Stored-has_chunk :
    (cs : ChunkStore) (file_id text : Bytes) (n j : ℕ)
    → Stored cs file_id text n 0
    → j < n
    → has_chunk cs file_id j ≡ true
unfolding has_chunk has
Stored-has_chunk cs file_id text n j s hi =
    rw (Stored-lookup cs file_id text n 0 j s (omega arith) (omega arith), has)
