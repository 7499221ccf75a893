-- ===== src/Rpc/Chunks.antt =====
-- `HasChunk` against the store.
use file_sharing_system_with.Prelude.{
  ◌^◌, ◌<◌, ◌≡◌, refl, true, false, some, Bytes, Bool-cases, inl, inr, sym, ◌∙◌, arith,
}
use file_sharing_system_with.Word.{Int32}
use file_sharing_system_with.Storage.Bloom.Add.{IsValid}
use file_sharing_system_with.Storage.Bloom.Total.{might_contain-some}
use file_sharing_system_with.Storage.Manager.{
  StorageManager, chunk_key, might_have_chunk, confirm_has_chunk,
}
use file_sharing_system_with.Storage.Manager.Tracking.{Tracked}
use file_sharing_system_with.Rpc.{HasChunkResponse, has_chunk}

pub has_chunk-confirms :
    (first second : StorageManager) (file_id : Bytes) (i : Int32)
    → IsValid first.bloom
    → Tracked first
    → i < 2 ^ 32
    → (r : HasChunkResponse) × (has_chunk first second file_id i ≡ some r)
      × (r.confirmed ≡ true → confirm_has_chunk second file_id i ≡ true)
      × (confirm_has_chunk first file_id i ≡ true
          → confirm_has_chunk second file_id i ≡ true
          → (r.might_have ≡ true) × (r.confirmed ≡ true))
unfolding has_chunk might_have_chunk
has_chunk-confirms first second file_id i v tracked hi =
    let (b, asked) = might_contain-some (chunk_key file_id i) first.bloom v in
    elim (Bool-cases b) [
      | inl maybe ↦ (
        record { might_have = true; confirmed = confirm_has_chunk second file_id i },
        rw (asked, has_chunk, maybe),
        λ yes. yes,
        λ at_first at_second. (refl, at_second),
      )
      | inr clear ↦ (
        record { might_have = false; confirmed = false },
        rw (asked, has_chunk, clear),
        λ yes. absurd (ground (arith, yes)),
        λ at_first at_second.
            let seen = tracked.seen file_id i hi at_first in
            absurd (ground (arith, seen, asked, clear)),
      )
    ]

-- With a valid filter in step with the store, `HasChunk` answers for a 32-bit index and confirms
-- exactly the chunks of the store, if the manager does not change between the two readings.
pub has_chunk-same :
    (sm : StorageManager) (file_id : Bytes) (i : Int32)
    → IsValid sm.bloom
    → Tracked sm
    → i < 2 ^ 32
    → (r : HasChunkResponse) × (has_chunk sm sm file_id i ≡ some r)
      × (r.confirmed ≡ confirm_has_chunk sm file_id i)
has_chunk-same sm file_id i v tracked hi =
    let (r, runs, sound, complete) = has_chunk-confirms sm sm file_id i v tracked hi in
    (
      r,
      runs,
      elim (Bool-cases (confirm_has_chunk sm file_id i)) [
        | inl there ↦ (complete there there).1 ∙ sym there
        | inr missing ↦ elim (Bool-cases r.confirmed) [
          | inl claimed ↦ absurd (ground (arith, sound claimed, missing))
          | inr denied ↦ denied ∙ sym missing
        ]
      ],
    )
