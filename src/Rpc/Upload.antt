-- ===== src/Rpc/Upload.antt =====
-- The reply of `UploadFile` against what the peer then serves.
use mathlib.Core.Path.{ap₂}
use file_sharing_system_with.Prelude.{
  ℕ, zero, suc, ◌+◌, ◌*◌, ◌-◌, ◌^◌, ◌≤◌, ◌<◌, ◌≡◌, refl, true, some, List, [], ◌∷◌, Bytes, length,
  get_elem?, arith, ap, ◌∙◌,
}
use file_sharing_system_with.Word.{to_int32}
use file_sharing_system_with.Storage.Disk.{Disk, IsHealthy}
use file_sharing_system_with.Storage.Hash.{compute_hash}
use file_sharing_system_with.Storage.Bloom.Add.{IsValid}
use file_sharing_system_with.Storage.Chunk.{num_chunks, rounds32, chunk_data}
use file_sharing_system_with.Storage.Chunk.Slices.{num_chunks-covers}
use file_sharing_system_with.Storage.Manager.Tracking.{Tracked}
use file_sharing_system_with.Storage.Manager.Upload.{upload_file-Uploaded}
use file_sharing_system_with.Peer.Node.{PeerNode}
use file_sharing_system_with.Rpc.{
  UploadFileResponse, upload_answered, upload_reply, upload_response, chunk_infos, upload_file,
  download_chunk,
}
use file_sharing_system_with.Rpc.Transfer.{reply_of}

chunk_infos-get_elem? :
    (file_id hash : Bytes) (i j k : ℕ) (hashes : List Bytes)
    → get_elem? hashes j ≡ some hash
    → i + j ≡ k
    → k < 2 ^ 32
    → get_elem? (chunk_infos file_id i hashes) j
      ≡ some (record { file_id = file_id; chunk_index = k; sha256_hash = hash })
unfolding chunk_infos
chunk_infos-get_elem? file_id hash i j k [] h at small = cc
chunk_infos-get_elem? file_id hash i zero k (x ∷ hashes) h at small =
    let index : to_int32 i ≡ k = omega arith in
    let same : x ≡ hash = ground (arith, h) in
    ap₂ (λ n t. some (record { file_id = file_id; chunk_index = n; sha256_hash = t })) index same
chunk_infos-get_elem? file_id hash i (suc j) k (x ∷ hashes) h at small =
    chunk_infos-get_elem? file_id hash (i + 1) j k hashes h (omega arith) small

chunk_infos-length :
    (file_id : Bytes) (i : ℕ) (hashes : List Bytes)
    → length (chunk_infos file_id i hashes) ≡ length hashes
unfolding chunk_infos
chunk_infos-length file_id i [] = refl
chunk_infos-length file_id i (x ∷ hashes) = ap suc (chunk_infos-length file_id (i + 1) hashes)

-- The reply has the number of chunks of the text and lists as many. Each chunk of the
-- text is listed at its index with its hash, and a download gives it with that hash, whatever happens
-- to the disk.
pub record Served (sha256 : Bytes → Bytes) (join : Bytes → Bytes → Bytes) {C : Type 0}
    (file_id text : Bytes) (response : UploadFileResponse) (p : PeerNode C) : Type 0 where
  pub named : response.file_id ≡ file_id
  pub sized : response.total_chunks ≡ num_chunks text
  pub counted : length response.chunks ≡ rounds32 (num_chunks text)
  pub listed :
      (i : ℕ)
      → i < rounds32 (num_chunks text)
      → get_elem? response.chunks i
        ≡ some (record {
          file_id = file_id;
          chunk_index = i;
          sha256_hash = compute_hash sha256 (chunk_data i text);
        })
  pub served :
      (later : Disk) (i : ℕ)
      → i < rounds32 (num_chunks text)
      → download_chunk sha256 join p later file_id i ≡ record {
        content = chunk_data i text;
        sha256_hash = compute_hash sha256 (chunk_data i text);
        success = true;
      }

-- With a hash of 32 bytes, on a disk where everything succeeds, with a valid filter in step with the
-- store: a text of 1 to (2 ^ 31 - 1) * 2 ^ 18 bytes is uploaded; the reply has the number of its chunks
-- and lists exactly these, each at its index with its hash. Whatever happens to the disk then, a download of each gives the chunk
-- with that hash.
pub upload_file-Served :
    (sha256 : Bytes → Bytes) (join : Bytes → Bytes → Bytes)
    (digest : (t : Bytes) → length (sha256 t) ≡ 32) {C : Type 0} (p : PeerNode C) (disk : Disk)
    (file_id file_name text : Bytes)
    → IsHealthy disk
    → 0 < length text
    → length text ≤ (2 ^ 31 - 1) * 2 ^ 18
    → IsValid p.storage.bloom
    → Tracked p.storage
    → (response : UploadFileResponse) × (p' : PeerNode C) × (disk' : Disk) × (upload_file sha256
          join p disk file_id file_name text
        ≡ some (upload_answered response p' disk'))
      × Served sha256 join file_id text response p'
unfolding upload_response upload_file upload_reply chunk_infos
upload_file-Served sha256 join digest p disk file_id file_name text healthy some_text small v
      tracked =
    let (meta, sm, disk', runs, u) =
      upload_file-Uploaded sha256 join digest p.storage disk file_id file_name text healthy
        some_text small v tracked in
    let p' = record p { storage = sm } in
    let (_, bound, _) = num_chunks-covers text small in
    let total : rounds32 meta.total_chunks ≡ rounds32 (num_chunks text) = ap rounds32 u.sized in
    (
      upload_response meta,
      p',
      disk',
      rw (runs, upload_file, upload_reply),
      record {
        named = u.named;
        sized = u.sized;
        counted = chunk_infos-length meta.file_id 0 meta.chunk_hashes ∙ u.counted;
        listed = λ i lt.
            ap (λ f. get_elem? (chunk_infos f 0 meta.chunk_hashes) i) u.named
            ∙ chunk_infos-get_elem? file_id (compute_hash sha256 (chunk_data i text)) 0 i i
                meta.chunk_hashes (u.listed i (omega arith)) (omega arith) (omega arith);
        served = λ later i lt.
            reply_of sha256 join p' later file_id (chunk_data i text)
              (compute_hash sha256 (chunk_data i text)) i (u.served later i (omega arith));
      },
    )
