-- ===== src/Rpc/Transfer.antt =====
-- A chunk on its way from one peer to another.
use file_sharing_system_with.Prelude.{
  ◌^◌, ◌<◌, ◌≡◌, true, some, Bytes, arith, inl, inr, Option-cases, sym, subst,
}
use file_sharing_system_with.Word.{Int32}
use file_sharing_system_with.Storage.Disk.{Disk, IsHealthy}
use file_sharing_system_with.Storage.Hash.{compute_hash}
use file_sharing_system_with.Storage.Bloom.Add.{IsValid}
use file_sharing_system_with.Storage.Chunk.{get_chunk}
use file_sharing_system_with.Storage.Manager
use file_sharing_system_with.Storage.Manager.{
  StorageManager, confirm_has_chunk, received, receive_chunk,
}
use file_sharing_system_with.Storage.Manager.Tracking.{Tracked}
use file_sharing_system_with.Storage.Manager.Receive.{receive_chunk-accepted}
use file_sharing_system_with.Peer.Node.{PeerNode}
use file_sharing_system_with.Rpc.{DownloadChunkResponse, download_chunk}

module _ (sha256 : Bytes → Bytes) (join : Bytes → Bytes → Bytes) where
  download_chunk-hash :
      (sm : StorageManager) (disk : Disk) (file_id content hash : Bytes) (i : Int32)
      → Manager.download_chunk sha256 join sm disk file_id i ≡ some (content, hash)
      → compute_hash sha256 content ≡ hash
  unfolding Manager.download_chunk
  download_chunk-hash sm disk file_id content hash i h =
      elim (Option-cases (get_chunk sha256 join sm.store disk file_id i)) [
        | inl missing ↦ absurd (ground (arith, missing, h))
        | inr (found, there) ↦ ground (arith, there, h)
      ]

  pub reply_of :
      {C : Type 0} (p : PeerNode C) (disk : Disk) (file_id content hash : Bytes) (i : Int32)
      → Manager.download_chunk sha256 join p.storage disk file_id i ≡ some (content, hash)
      → download_chunk sha256 join p disk file_id i
        ≡ record { content = content; sha256_hash = hash; success = true }
  unfolding download_chunk
  reply_of p disk file_id content hash i served = rw (served, download_chunk)

  -- `ReceiveChunk` takes the reply, and then the receiver confirms the chunk, has a valid filter that is
  -- in step, and serves the chunk with the same reply.
  abbrev pub IsAccepted :
      {C : Type 0} → PeerNode C → Disk → Disk → Bytes → Int32 → DownloadChunkResponse → Type 0
  IsAccepted {C = C} taker disk later file_id i reply =
      (sm : StorageManager) × (disk' : Disk) × (receive_chunk sha256 join taker.storage disk file_id
          i reply.content reply.sha256_hash
        ≡ received sm disk')
      × (confirm_has_chunk sm file_id i ≡ true)
      × (download_chunk sha256 join (record taker { storage = sm }) later file_id i ≡ reply)
      × IsValid sm.bloom
      × Tracked sm

  -- What one peer serves another accepts: on a disk where everything succeeds, with a valid filter in
  -- step with the store, `ReceiveChunk` takes the content and the hash of a successful
  -- `DownloadChunk` reply for a 32-bit index. Then the receiver confirms the chunk, its filter is
  -- valid and in step, and whatever happens to its disk it serves the chunk with the same reply.
  pub download_chunk-receive_chunk :
      {C : Type 0} (giver taker : PeerNode C) (giver_disk disk later : Disk) (file_id : Bytes)
      (i : Int32)
      → (download_chunk sha256 join giver giver_disk file_id i).success ≡ true
      → IsHealthy disk
      → i < 2 ^ 32
      → IsValid taker.storage.bloom
      → Tracked taker.storage
      → IsAccepted taker disk later file_id i
          (download_chunk sha256 join giver giver_disk file_id i)
  unfolding download_chunk
  download_chunk-receive_chunk giver taker giver_disk disk later file_id i success healthy hi v
        tracked =
      elim (Option-cases (Manager.download_chunk sha256 join giver.storage giver_disk file_id i)) [
        | inl missing ↦ absurd (ground (arith, missing, success))
        | inr ((content, hash), served) ↦
            let same = download_chunk-hash giver.storage giver_disk file_id content hash i served in
            let (sm, disk', accepted, there, again, valid, step) =
              receive_chunk-accepted sha256 join taker.storage disk file_id i content hash later
                same healthy hi v tracked in
            subst (IsAccepted taker disk later file_id i)
              (sym (reply_of giver giver_disk file_id content hash i served))
              (
                sm,
                disk',
                accepted,
                there,
                reply_of (record taker { storage = sm }) later file_id content hash i again,
                valid,
                step,
              )
      ]
