-- ===== src/Rpc/Tests.antt =====
-- Runs of the handlers, and the theorems at a concrete peer.
use mathlib.Core.List.Permᴰ
use file_sharing_system_with.Prelude.{
  List, length, bytes_beq, ℕ, ◌^◌, ◌<◌, ◌≡◌, refl, true, some, [], ◌∷◌, Bytes, arith,
}
use file_sharing_system_with.Word.{Int32}
use file_sharing_system_with.Float.{toy_float, toy_float-IsLawful}
use file_sharing_system_with.GoMap.{lookup}
use file_sharing_system_with.Fmt.{format_int32}
use file_sharing_system_with.Storage.Disk.{Disk}
use file_sharing_system_with.Storage.Bloom.Sizes.{optimal_num_bits}
use file_sharing_system_with.Storage.Chunk.{get_chunk, chunk_store_key}
use file_sharing_system_with.Storage.Manager
use file_sharing_system_with.Storage.Manager.{StorageManager, confirm_has_chunk}
use file_sharing_system_with.Peer.Node.{PeerNode, make_node, new_peer_node}
use file_sharing_system_with.Rpc.{
  HasChunkResponse, UploadFileResponse, has_chunk, download_chunk, upload_file, upload_answered,
  calculate_route,
}
use file_sharing_system_with.Rpc.Transfer.{IsAccepted, download_chunk-receive_chunk}
use file_sharing_system_with.Rpc.Upload.{Served, upload_file-Served}
use file_sharing_system_with.GoMap.{insert}
use file_sharing_system_with.Routing.Router.{Moments, new_dijkstra_router}
use file_sharing_system_with.Routing.Router.Recent.{IsRecent, Called, fresh}
use file_sharing_system_with.Peer.Network.{add_node, add_edge}
use file_sharing_system_with.Peer.Network.History.{
  Change, node, edge, after, make_change, latest_node,
}
use file_sharing_system_with.Rpc.Routes.{IsReply, graph_after, calculate_route-IsReply}
use file_sharing_system_with.Rpc.Served.{Reachable, IsKept, new_peer_node-has_chunk}
use file_sharing_system_with.Samples.{
  toy_sum, slash, manager, good_disk, good_disk-IsHealthy, bloom-IsValid, manager-Tracked, file,
  words, toy_sum-size,
}

abbrev peer : PeerNode ℕ
peer = make_node 3 9_003 [] manager

-- A peer that has one chunk in memory.
abbrev giver : PeerNode ℕ
giver = make_node 4 9_004 [] (record manager {
  store = record { base_dir = []; files = []; chunks = (b'f' ∷ b':' ∷ b'5' ∷ [], words) ∷ [] };
})

upload_file-Served_example :
    (response : UploadFileResponse) × (p' : PeerNode ℕ) × (disk' : Disk) × (upload_file toy_sum
        slash peer good_disk file words words
      ≡ some (upload_answered response p' disk'))
    × Served toy_sum slash file words response p'
unfolding make_node
upload_file-Served_example =
    upload_file-Served toy_sum slash toy_sum-size peer good_disk file words words
      good_disk-IsHealthy (omega arith) (omega arith) bloom-IsValid manager-Tracked

giver_serves : (download_chunk toy_sum slash giver good_disk file 5).success ≡ true
unfolding download_chunk Manager.download_chunk get_chunk chunk_store_key make_node lookup bytes_beq
    format_int32
giver_serves = refl

download_chunk-receive_chunk_example :
    IsAccepted toy_sum slash peer good_disk good_disk file 5
      (download_chunk toy_sum slash giver good_disk file 5)
unfolding make_node
download_chunk-receive_chunk_example =
    download_chunk-receive_chunk toy_sum slash giver peer good_disk good_disk good_disk file 5
      giver_serves good_disk-IsHealthy (omega arith) bloom-IsValid manager-Tracked

new_peer_node-has_chunk_example :
    (start : PeerNode ℕ) × (new_peer_node toy_float good_disk 3 9_003 [] ≡ some start)
    × ((p : PeerNode ℕ)
        → Reachable toy_sum slash start p
        → IsKept p
          × ((file_id : Bytes) (i : Int32)
              → i < 2 ^ 32
              → (r : HasChunkResponse) × (has_chunk p.storage p.storage file_id i ≡ some r)
                × (r.confirmed ≡ confirm_has_chunk p.storage file_id i)))
unfolding optimal_num_bits
new_peer_node-has_chunk_example =
    new_peer_node-has_chunk toy_sum slash toy_sum-size toy_float toy_float-IsLawful good_disk 3
      9_003 [] refl (omega arith) (omega arith)

abbrev pair : List Change
pair = edge 1 2 7 ∷ node 40 2 [] ∷ node 30 1 [] ∷ []

pair_size : length (after pair).nodes ≡ 2
unfolding after make_change add_node add_edge insert
pair_size = refl

abbrev router_peer : PeerNode ℕ
router_peer = record {
  id = 1;
  port = 9_001;
  address = [];
  bootstrap_addr = [];
  graph = after pair;
  router = new_dijkstra_router;
  storage = manager;
  connections = [];
}

abbrev moments : Moments
moments = record { looked_up = 50; created = 51; stored = 52 }

abbrev as_is : ℕ → List Int32 → List Int32
as_is r ks = ks

-- The first call, over the graph before the latency changes.
first_call :
    let (reply, p') = calculate_route as_is (λ m. m) (λ m. m) 1 2 moments router_peer in
    IsRecent ((52, graph_after (λ m. m) (λ m. m) pair) ∷ []) 50 (λ g. IsReply g 1 2 reply)
    × Called ((52, graph_after (λ m. m) (λ m. m) pair) ∷ []) p'.router
unfolding latest_node
first_call =
    calculate_route-IsReply (λ m. m) (λ m. m) (λ m. Permᴰ.refl m) (λ m. Permᴰ.refl m) pair [] as_is
      7 1 2 (record { id = 1; address = []; last_seen = 30 })
      (record { id = 2; address = []; last_seen = 40 }) moments router_peer
      (λ r ks k. (λ m. m, λ m. m))
      (omega arith, ((λ e. absurd (omega arith)), ((λ e. absurd (omega arith)), tt)))
      (omega (arith, pair_size)) refl refl (omega arith) (omega arith) (omega arith) refl fresh

abbrev slower : List Change
slower = edge 1 2 9 ∷ pair

slower_size : length (after slower).nodes ≡ 2
unfolding after make_change add_node add_edge insert
slower_size = refl

abbrev slower_peer : PeerNode ℕ
slower_peer = record router_peer {
  graph = after slower;
  router = (calculate_route as_is (λ m. m) (λ m. m) 1 2 moments router_peer).1.router;
}

abbrev later : Moments
later = record { looked_up = 70; created = 71; stored = 72 }

calculate_route-IsReply_example :
    let (reply, p') = calculate_route as_is (λ m. m) (λ m. m) 1 2 later slower_peer in
    IsRecent
      ((72, graph_after (λ m. m) (λ m. m) slower) ∷ (52, graph_after (λ m. m) (λ m. m) pair) ∷ [])
      70
      (λ g. IsReply g 1 2 reply)
    × Called
        ((72, graph_after (λ m. m) (λ m. m) slower) ∷ (52, graph_after (λ m. m) (λ m. m) pair) ∷ [])
        p'.router
unfolding latest_node
calculate_route-IsReply_example =
    calculate_route-IsReply (λ m. m) (λ m. m) (λ m. Permᴰ.refl m) (λ m. Permᴰ.refl m) slower
      ((52, graph_after (λ m. m) (λ m. m) pair) ∷ []) as_is 9 1 2
      (record { id = 1; address = []; last_seen = 30 })
      (record { id = 2; address = []; last_seen = 40 }) later slower_peer
      (λ r ks k. (λ m. m, λ m. m))
      (omega arith, (omega arith, ((λ e. absurd (omega arith)), ((λ e. absurd (omega arith)), tt))))
      (omega (arith, slower_size)) refl refl (omega arith) (omega arith) (omega arith) refl
      first_call.1
