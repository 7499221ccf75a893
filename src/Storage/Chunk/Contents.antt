-- ===== src/Storage/Chunk/Contents.antt =====
-- What the loop of `SplitFile` collects: one chunk for each round, and nothing else in the store.
use mathlib.Core.List.{Memᴰ, map-append, append-nil, append_assoc}
use mathlib.Core.List.Memᴰ
use file_sharing_system_with.Prelude.{
  ℕ, zero, suc, ◌+◌, ◌^◌, ◌≤◌, ◌<◌, ◌≡◌, refl, ◌⊎◌, inl, inr, true, List, [], ◌∷◌, ◌++◌, map, Bytes,
  length, get_elem?, some, arith, All, ◌∙◌, ap, sym, subst, ◌-◌,
}
use file_sharing_system_with.Word.{Int32}
use file_sharing_system_with.Storage.Hash.Check.{IsDigest}
use file_sharing_system_with.Storage.Hash.Binding.{compute_hash-IsDigest}
use file_sharing_system_with.Storage.Disk.{Disk}
use file_sharing_system_with.Storage.Hash.{compute_hash}
use file_sharing_system_with.Storage.Chunk.{
  Chunk, ChunkStore, Splitting, has_chunk, make_chunk, chunk_data, split_round, split_loop,
}
use file_sharing_system_with.Storage.Chunk.Loop.{split_loop-first}
use file_sharing_system_with.Storage.Chunk.Download.{has_chunk-put_chunk-cases}

module _ (sha256 : Bytes → Bytes) (join : Bytes → Bytes → Bytes) (file_id text : Bytes) where
  -- The chunks of the rounds from `i` on.
  unfoldable pub file_chunks : ℕ → ℕ → List Chunk
  file_chunks zero i = []
  file_chunks (suc n) i =
      make_chunk sha256 join file_id i (chunk_data i text) ∷ file_chunks n (i + 1)

  -- What every round keeps, the loop keeps.
  pub split_loop_inv :
      (P : ℕ → Splitting → Type 0) (top : ℕ)
      → ((i : ℕ) (s : Splitting)
          → i < top
          → P i s
          → P (i + 1) (split_round sha256 join file_id text i s).0)
      → (n i : ℕ) (s s' : Splitting) → i + n ≡ top
      → split_loop sha256 join file_id text n i s ≡ (s', true)
      → P i s
      → P top s'
  unfolding split_loop
  split_loop_inv P top keep zero i s s' l run p =
      let at : i ≡ top = omega arith in subst (P top) (ap (λ t. t.0) run) (subst (λ k. P k s) at p)
  split_loop_inv P top keep (suc n) i s s' l run p =
      let (done, later) = split_loop-first sha256 join file_id text n i s s' run in
      split_loop_inv P top keep n (i + 1) (split_round sha256 join file_id text i s).0 s'
        (omega arith) later (keep i s (omega arith) p)

  -- After the rounds below `i`, from the store `cs` on.
  pub record Collected (cs : ChunkStore) (top i : ℕ) (s : Splitting) : Type 0 where
    pub chunks : s.chunks ++ file_chunks (top - i) i ≡ file_chunks top 0
    pub hashes : s.hashes ≡ map (λ c. c.hash) s.chunks
    pub known :
        (f : Bytes) (j : Int32)
        → j < 2 ^ 32
        → has_chunk s.store f j ≡ true
        → (has_chunk cs f j ≡ true)
          ⊎ ((c : Chunk) × Memᴰ c s.chunks × (c.file_id ≡ f) × (c.index ≡ j))

  split_round-Collected :
      (cs : ChunkStore) (top i : ℕ) (s : Splitting)
      → top ≤ 2 ^ 32
      → i < top
      → Collected cs top i s
      → Collected cs top (i + 1) (split_round sha256 join file_id text i s).0
  unfolding split_round file_chunks make_chunk
  split_round-Collected cs top i s small lt c =
      let chunk = make_chunk sha256 join file_id i (chunk_data i text) in
      let left : top - i ≡ suc (top - (i + 1)) = omega arith in
      record {
        chunks =
            append_assoc s.chunks (chunk ∷ []) (file_chunks (top - (i + 1)) (i + 1))
            ∙ (rw left at c.chunks);
        hashes =
            ap (λ t. t ++ chunk.hash ∷ []) c.hashes
            ∙ sym (map-append (λ c. c.hash) s.chunks (chunk ∷ []));
        known = λ f j hj h.
            elim (has_chunk-put_chunk-cases s.store file_id f i j (chunk_data i text) (omega arith)
              hj h) [
                | inl same ↦
                    inr (chunk, Memᴰ.append_right s.chunks (Memᴰ.head refl), same.0, same.1)
                | inr old ↦ elim (c.known f j hj old) [
                  | inl before ↦ inl before
                  | inr (d, m, e, e') ↦ inr (d, Memᴰ.append_left (chunk ∷ []) m, e, e')
                ]
              ];
      }

  -- From an empty collection the loop collects exactly the chunks of the text, with their hashes.
  pub split_loop-Collected :
      (cs : ChunkStore) (disk : Disk) (top : ℕ) (s : Splitting)
      → top ≤ 2 ^ 32
      → split_loop sha256 join file_id text top 0
          (record { store = cs; disk = disk; chunks = []; hashes = [] })
        ≡ (s, true)
      → (s.chunks ≡ file_chunks top 0) × Collected cs top top s
  unfolding file_chunks
  split_loop-Collected cs disk top s small run =
      let start : Splitting = record { store = cs; disk = disk; chunks = []; hashes = [] } in
      let none_left : top - top ≡ 0 = omega arith in
      let all_left : top - 0 ≡ top = omega arith in
      let first : Collected cs top 0 start = record {
        chunks = ap (λ n. file_chunks n 0) all_left;
        hashes = refl;
        known = λ f j hj h. inl h;
      } in
      let c =
        split_loop_inv (Collected cs top) top (λ i t lt. split_round-Collected cs top i t small lt)
          top 0 start s (omega arith) run first in
      (sym (append-nil s.chunks) ∙ (rw none_left at c.chunks), c)

  -- With a hash of 32 bytes, the hashes of the chunks are digests.
  pub file_chunks-IsDigest :
      ((t : Bytes) → length (sha256 t) ≡ 32)
      → (n i : ℕ) → All IsDigest (map (λ c. c.hash) (file_chunks n i))
  unfolding file_chunks make_chunk
  file_chunks-IsDigest digest zero i = tt
  file_chunks-IsDigest digest (suc n) i = (
    compute_hash-IsDigest sha256 digest (chunk_data i text),
    file_chunks-IsDigest digest n (i + 1),
  )

  pub file_chunks-length : (n i : ℕ) → length (map (λ c. c.hash) (file_chunks n i)) ≡ n
  unfolding file_chunks
  file_chunks-length zero i = refl
  file_chunks-length (suc n) i = ap suc (file_chunks-length n (i + 1))

  -- The hash of each chunk stands at its index.
  pub file_chunks-get_elem? :
      (n i j k : ℕ)
      → j < n
      → i + j ≡ k
      → get_elem? (map (λ c. c.hash) (file_chunks n i)) j
        ≡ some (compute_hash sha256 (chunk_data k text))
  unfolding file_chunks make_chunk
  file_chunks-get_elem? zero i j k lt at = absurd (omega arith)
  file_chunks-get_elem? (suc n) i zero k lt at =
      let same : i ≡ k = omega arith in
      ap (λ x. some (compute_hash sha256 (chunk_data x text))) same
  file_chunks-get_elem? (suc n) i (suc j) k lt at =
      file_chunks-get_elem? n (i + 1) j k (omega arith) (omega arith)
