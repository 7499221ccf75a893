-- ===== src/Rpc/Served.antt =====
-- The peer over time: what its handlers and its own operations keep.
use file_sharing_system_with.Prelude.{
  ℕ, ◌*◌, ◌-◌, ◌^◌, ◌≤◌, ◌<◌, ◌≡◌, refl, true, some, List, Bytes, length, arith, sym, subst,
  bytes_eq,
}
use file_sharing_system_with.Word.{Int32, Int64}
use file_sharing_system_with.Float.{Float64, IsLawful}
use file_sharing_system_with.GoMap.Range.{Range}
use file_sharing_system_with.Routing.Types.{Time}
use file_sharing_system_with.Routing.Router.{Moments}
use file_sharing_system_with.Storage.Disk.{Disk, IsHealthy}
use file_sharing_system_with.Storage.Bloom.Sizes.{optimal_num_bits}
use file_sharing_system_with.Storage.Bloom.Add.{IsValid}
use file_sharing_system_with.Storage.Hash.{compute_hash}
use file_sharing_system_with.Storage.Manager.{
  StorageManager, made, received, receive_chunk, new_storage_manager, confirm_has_chunk,
}
use file_sharing_system_with.Storage.Manager.Tracking.{Tracked}
use file_sharing_system_with.Storage.Manager.Upload.{upload_file-Uploaded}
use file_sharing_system_with.Storage.Manager.Start.{new_storage_manager-Tracked}
use file_sharing_system_with.Storage.Manager.Receive.{receive_chunk-accepted}
use file_sharing_system_with.Peer.Network.{NetworkNode, NetworkEdge}
use file_sharing_system_with.Peer.Node.{PeerNode, storage_dir, make_node, new_peer_node, close}
use file_sharing_system_with.Peer.Connect.{Action, store_connection, write_node, write_edge, act}
use file_sharing_system_with.Rpc.{
  HasChunkResponse, UploadFileResponse, upload_answered, upload_reply, upload_response,
  notify_new_peer, calculate_route, invalidate_route_cache, has_chunk, upload_file,
}
use file_sharing_system_with.Rpc.Chunks.{has_chunk-same}

-- The filter is valid and in step with the store.
pub record IsKept {C : Type 0} (p : PeerNode C) : Type 0 where
  pub valid : IsValid p.storage.bloom
  pub tracked : Tracked p.storage

module _ (sha256 : Bytes → Bytes) (join : Bytes → Bytes → Bytes) {C : Type 0} where
  -- One request or operation that a peer completes. What touches the disk is an upload or a received
  -- chunk that everything succeeds for.
  pub data Serves : PeerNode C → PeerNode C → Type 0 where
    notified :
        (now : Time) (id : Int32) (address : Bytes) (p : PeerNode C)
        → Serves p (notify_new_peer now id address p).1
    routed :
        (order : ℕ → List Int32 → List Int32) (nodes : Range Int32 NetworkNode)
        (edges : Range Bytes NetworkEdge) (from to : Int32) (t : Moments) (p : PeerNode C)
        → Serves p (calculate_route order nodes edges from to t p).1
    invalidated : (p : PeerNode C) → Serves p (invalidate_route_cache p).1
    acted : (a : Action C) (p : PeerNode C) → Serves p (act a p)
    closed : (p : PeerNode C) → Serves p (close p)
    took_file :
        (p p' : PeerNode C) (disk disk' : Disk) (file_id file_name text : Bytes)
        (response : UploadFileResponse)
        → IsHealthy disk
        → 0 < length text
        → length text ≤ (2 ^ 31 - 1) * 2 ^ 18
        → upload_file sha256 join p disk file_id file_name text
          ≡ some (upload_answered response p' disk')
        → Serves p p'
    took_chunk :
        (p : PeerNode C) (sm : StorageManager) (disk disk' : Disk) (file_id : Bytes) (i : Int32)
        (content expected : Bytes)
        → IsHealthy disk
        → i < 2 ^ 32
        → compute_hash sha256 content ≡ expected
        → receive_chunk sha256 join p.storage disk file_id i content expected ≡ received sm disk'
        → Serves p (record p { storage = sm })

  pub data Reachable (start : PeerNode C) : PeerNode C → Type 0 where
    started : Reachable start start
    later : {p p' : PeerNode C} → Reachable start p → Serves p p' → Reachable start p'

  module _ (digest : (t : Bytes) → length (sha256 t) ≡ 32) where
    took_file-IsKept :
        (p p' : PeerNode C) (disk disk' : Disk) (file_id file_name text : Bytes)
        (response : UploadFileResponse)
        → IsHealthy disk
        → 0 < length text
        → length text ≤ (2 ^ 31 - 1) * 2 ^ 18
        → upload_file sha256 join p disk file_id file_name text
          ≡ some (upload_answered response p' disk')
        → IsKept p
        → IsKept p'
    unfolding upload_file upload_reply
    took_file-IsKept p p' disk disk' file_id file_name text response healthy some_text small h k =
        let (meta, sm, disk'', runs, u) =
          upload_file-Uploaded sha256 join digest p.storage disk file_id file_name text healthy
            some_text small k.valid k.tracked in
        let answer : upload_file sha256 join p disk file_id file_name text
            ≡ some (upload_answered (upload_response meta) (record p { storage = sm }) disk'') =
          rw (runs, upload_file, upload_reply) in
        let same : record p { storage = sm } ≡ p' = ground (arith, answer, h) in
        subst IsKept same (record { valid = u.valid_filter; tracked = u.tracked })

    act-IsKept : (a : Action C) (p : PeerNode C) → IsKept p → IsKept (act a p)
    unfolding act
    act-IsKept (store_connection id conn) p k = record { valid = k.valid; tracked = k.tracked }
    act-IsKept (write_node now id address) p k = record { valid = k.valid; tracked = k.tracked }
    act-IsKept (write_edge to latency) p k = record { valid = k.valid; tracked = k.tracked }

    Serves-IsKept : (p p' : PeerNode C) → Serves p p' → IsKept p → IsKept p'
    unfolding notify_new_peer calculate_route invalidate_route_cache close
    Serves-IsKept _ _ (notified now id address p) k = record {
      valid = k.valid;
      tracked = k.tracked;
    }
    Serves-IsKept _ _ (routed order nodes edges from to t p) k = record {
      valid = k.valid;
      tracked = k.tracked;
    }
    Serves-IsKept _ _ (invalidated p) k = record { valid = k.valid; tracked = k.tracked }
    Serves-IsKept _ _ (acted a p) k = act-IsKept a p k
    Serves-IsKept _ _ (closed p) k = record { valid = k.valid; tracked = k.tracked }
    Serves-IsKept p p'
          (took_file _ _ disk disk' file_id file_name text response healthy pos small h) k =
        took_file-IsKept p p' disk disk' file_id file_name text response healthy pos small h k
    Serves-IsKept _ _ (took_chunk p sm disk disk' file_id i content expected healthy hi same h) k =
        let (sm', disk'', accepted, _, _, valid, tracked) =
          receive_chunk-accepted sha256 join p.storage disk file_id i content expected disk same
            healthy hi k.valid k.tracked in
        let at : sm' ≡ sm = ground (arith, accepted, h) in
        record { valid = subst (λ x. IsValid x.bloom) at valid; tracked = subst Tracked at tracked }

    Reachable-IsKept : (start p : PeerNode C) → Reachable start p → IsKept start → IsKept p
    Reachable-IsKept start p started k = k
    Reachable-IsKept start p (later {p = q} r s) k =
        Serves-IsKept q p s (Reachable-IsKept start q r k)

    module _ {F : Type 0} (fl : Float64 F) (lawful : IsLawful fl) (disk : Disk) (id : Int32)
        (port : Int64) (bootstrap_addr : Bytes) where
      start_peer :
          (sm : StorageManager)
          → new_storage_manager fl disk id (storage_dir id) ≡ made sm
          → ((p : PeerNode C) → p.storage ≡ sm → IsKept p)
          → (start : PeerNode C) × (new_peer_node fl disk id port bootstrap_addr ≡ some start)
            × IsKept start
      unfolding new_peer_node make_node
      start_peer sm runs kept =
          let start : PeerNode C = make_node id port bootstrap_addr sm in
          (start, rw (runs, new_peer_node), kept start refl)

      -- With a hash of 32 bytes: a peer whose directory can be made, with a filter of a positive size of at
      -- most 32 bits for its 10,000 chunks at 1%, is made. Whatever notifications, route requests,
      -- invalidations, steps of connecting, closings, uploads of 1 to (2 ^ 31 - 1) * 2 ^ 18 bytes and
      -- good chunks with 32-bit indices it takes from then on, each of the last two on a disk where
      -- everything succeeds, its filter is valid and in step with its store. So for a 32-bit index `HasChunk`
      -- answers, and confirms exactly the chunks that are there, if they do not change between its readings.
      pub new_peer_node-has_chunk :
          disk.can_make (storage_dir id) ≡ true
          → 0 < optimal_num_bits fl 10_000 fl.one_percent
          → optimal_num_bits fl 10_000 fl.one_percent < 2 ^ 32
          → (start : PeerNode C) × (new_peer_node fl disk id port bootstrap_addr ≡ some start)
            × ((p : PeerNode C)
                → Reachable start p
                → IsKept p
                  × ((file_id : Bytes) (i : Int32)
                      → i < 2 ^ 32
                      → (r : HasChunkResponse) × (has_chunk p.storage p.storage file_id i ≡ some r)
                        × (r.confirmed ≡ confirm_has_chunk p.storage file_id i)))
      new_peer_node-has_chunk can pos small =
          let (sm, runs, valid, tracked, _) =
            new_storage_manager-Tracked fl lawful disk id (storage_dir id) can pos small in
          let (start, begins, kept) = start_peer sm runs (λ p same. record {
            valid = subst (λ x. IsValid x.bloom) (sym same) valid;
            tracked = subst Tracked (sym same) tracked;
          }) in
          (
            start,
            begins,
            λ p r.
                let k = Reachable-IsKept start p r kept in
                (k, λ file_id i hi. has_chunk-same p.storage file_id i k.valid k.tracked hi),
          )
