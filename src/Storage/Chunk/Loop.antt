-- ===== src/Storage/Chunk/Loop.antt =====
-- What the loop of `SplitFile` leaves in the store and on the disk.
use file_sharing_system_with.Prelude.{
  ℕ, zero, suc, ◌+◌, ◌^◌, ◌≤◌, ◌<◌, ◌≡◌, refl, ◌≢◌, inl, inr, true, false, Option, some, Bytes,
  bytes_eq, bytes_beq_iff, arith, Bool-cases, ◌∙◌, ap, sym,
}
use file_sharing_system_with.GoMap.{lookup}
use file_sharing_system_with.GoMap.Laws.{lookup-insert}
use file_sharing_system_with.Storage.Disk.{IsHealthy, mkdir_all, write_file}
use file_sharing_system_with.Storage.Chunk.{
  chunk_store_key, chunk_data, Splitting, put_chunk, chunk_path, chunk_name, persist_chunk,
  split_round, split_loop,
}
use file_sharing_system_with.Storage.Chunk.Keys.{chunk_store_key-ne}
use file_sharing_system_with.Storage.Chunk.Assemble.{Stored}

module _ (sha256 : Bytes → Bytes) (join : Bytes → Bytes → Bytes) (file_id text : Bytes) where
  abbrev pub chunk_at : Splitting → ℕ → Option Bytes
  chunk_at s j = lookup (chunk_store_key file_id j) s.store.chunks

  pub split_round-chunk :
      (i : ℕ) (s : Splitting)
      → chunk_at (split_round sha256 join file_id text i s).0 i ≡ some (chunk_data i text)
  unfolding split_round put_chunk
  split_round-chunk i s = ground (
    arith,
    lookup-insert (chunk_store_key file_id i) (chunk_store_key file_id i) (chunk_data i text)
        s.store.chunks,
    bytes_beq_iff (chunk_store_key file_id i) (chunk_store_key file_id i),
  )

  pub split_round-keeps :
      (i j : ℕ) (s : Splitting)
      → i < 2 ^ 32
      → j < 2 ^ 32
      → i ≢ j
      → chunk_at (split_round sha256 join file_id text i s).0 j ≡ chunk_at s j
  unfolding split_round put_chunk
  split_round-keeps i j s hi hj ne = ground (
    arith,
    lookup-insert (chunk_store_key file_id i) (chunk_store_key file_id j) (chunk_data i text)
        s.store.chunks,
    chunk_store_key-ne file_id i j hi hj ne,
  )

  pub split_loop-keeps :
      (n i j : ℕ) (s : Splitting)
      → j < i
      → i + n ≤ 2 ^ 32
      → chunk_at (split_loop sha256 join file_id text n i s).0 j ≡ chunk_at s j
  unfolding split_loop
  split_loop-keeps zero i j s h l = refl
  split_loop-keeps (suc n) i j s h l =
      let s' = (split_round sha256 join file_id text i s).0 in
      let one = split_round-keeps i j s (omega arith) (omega arith) (omega arith) in
      let rest = split_loop-keeps n (i + 1) j s' (omega arith) (omega arith) in
      elim (Bool-cases (split_round sha256 join file_id text i s).1) [
        | inl done ↦ rw done (rest ∙ one)
        | inr failed ↦ rw failed one
      ]

  pub split_loop-done :
      (n i : ℕ) (s : Splitting)
      → (split_round sha256 join file_id text i s).1 ≡ true
      → split_loop sha256 join file_id text (suc n) i s
        ≡ split_loop sha256 join file_id text n (i + 1) (split_round sha256 join file_id text i s).0
  unfolding split_loop
  split_loop-done n i s done = rw done

  split_loop-failed :
      (n i : ℕ) (s : Splitting)
      → (split_round sha256 join file_id text i s).1 ≡ false
      → split_loop sha256 join file_id text (suc n) i s
        ≡ ((split_round sha256 join file_id text i s).0, false)
  unfolding split_loop
  split_loop-failed n i s failed = rw failed

  -- A loop that runs through has a good first round, and the rest of it runs through.
  pub split_loop-first :
      (n i : ℕ) (s s' : Splitting)
      → split_loop sha256 join file_id text (suc n) i s ≡ (s', true)
      → ((split_round sha256 join file_id text i s).1 ≡ true)
        × (split_loop sha256 join file_id text n
              (i + 1)
              (split_round sha256 join file_id text i s).0
            ≡ (s', true))
  split_loop-first n i s s' run = elim (Bool-cases (split_round sha256 join file_id text i s).1) [
    | inl done ↦ (done, sym (split_loop-done n i s done) ∙ run)
    | inr failed ↦
        let no : true ≡ false = ap (λ t. t.1) (sym run ∙ split_loop-failed n i s failed) in
        absurd (ground (arith, no))
  ]

  pub split_loop-Stored :
      (n i : ℕ) (s s' : Splitting)
      → i + n ≤ 2 ^ 32
      → split_loop sha256 join file_id text n i s ≡ (s', true)
      → Stored s'.store file_id text n i
  split_loop-Stored zero i s s' l h = tt
  split_loop-Stored (suc n) i s s' l h =
      let r = (split_round sha256 join file_id text i s).0 in
      let (done, later) = split_loop-first n i s s' h in
      let kept = split_loop-keeps n (i + 1) i r (omega arith) (omega arith) in
      let same = ap (λ t. chunk_at t.0 i) later in
      (
        sym same ∙ kept ∙ split_round-chunk i s,
        split_loop-Stored n (i + 1) r s' (omega arith) later,
      )

  pub split_round-IsHealthy :
      (i : ℕ) (s : Splitting)
      → IsHealthy s.disk
      → ((split_round sha256 join file_id text i s).1 ≡ true)
        × IsHealthy (split_round sha256 join file_id text i s).0.disk
  unfolding split_round persist_chunk mkdir_all write_file put_chunk chunk_path
  split_round-IsHealthy i s h =
      let dir = h.makes (join s.store.base_dir file_id) in
      let path = h.writes (join (join s.store.base_dir file_id) (chunk_name i)) in
      rw (dir, write_file, path) (refl, record { makes = h.makes; writes = h.writes })

  pub split_loop-healthy :
      (n i : ℕ) (s : Splitting)
      → IsHealthy s.disk
      → (s' : Splitting) × (split_loop sha256 join file_id text n i s ≡ (s', true))
  unfolding split_loop
  split_loop-healthy zero i s h = (s, refl)
  split_loop-healthy (suc n) i s h =
      let (done, kept) = split_round-IsHealthy i s h in
      let r = (split_round sha256 join file_id text i s).0 in
      let (s', rest) = split_loop-healthy n (i + 1) r kept in
      (s', split_loop-done n i s done ∙ rest)
