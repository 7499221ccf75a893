-- ===== src/Rpc.antt =====
-- internal/network/grpc_server.go: the handlers of the peer service, with the messages of
-- proto/p2p.proto that they answer with. A request is the arguments of its handler. The texts of
-- errors are left out, and so is the field `chunk_size` of `ChunkInfo`, which no handler sets.
pub mod Chunks
pub mod Transfer
pub mod Upload
pub mod Served
pub mod Routes
mod Tests
use file_sharing_system_with.Prelude.{
  ℕ, ◌+◌, Bool, true, false, Option, none, some, List, [], ◌∷◌, map, Bytes,
}
use file_sharing_system_with.Word.{Int32, Int64, to_int32}
use file_sharing_system_with.Float.{Float64}
use file_sharing_system_with.GoMap.{GoMap}
use file_sharing_system_with.GoMap.Range.{Range}
use file_sharing_system_with.Routing.Types.{Time, Route, unix}
use file_sharing_system_with.Routing.Cache
use file_sharing_system_with.Routing.Cache.{CachedRoute}
use file_sharing_system_with.Routing.Dijkstra.{Outcome, ok, err, out_of_fuel}
use file_sharing_system_with.Routing.Router
use file_sharing_system_with.Routing.Router.{Moments, get_cache, invalidate_cache}
use file_sharing_system_with.Storage.Disk.{Disk}
use file_sharing_system_with.Storage.Bloom.{Serialized, serialize}
use file_sharing_system_with.Storage.Chunk.{FileMetadata}
use file_sharing_system_with.Storage.Manager
use file_sharing_system_with.Storage.Manager.{
  StorageManager, UploadResult, uploaded, upload_error, upload_panic, might_have_chunk,
  confirm_has_chunk,
}
use file_sharing_system_with.Peer.Network.{NetworkNode, NetworkEdge, add_node, as_graph}
use file_sharing_system_with.Peer.Node.{PeerNode, GraphResponse, get_graph_proto}

pub record PingResponse : Type 0 where
  pub responder_id : Int32
  pub timestamp : Time

pub record RouteResponse : Type 0 where
  pub path : List Int32
  pub total_latency_ms : Int64
  pub hops : Int32

pub record RouteCacheEntry : Type 0 where
  pub from_peer_id : Int32
  pub to_peer_id : Int32
  pub path : List Int32
  pub total_latency_ms : Int64
  pub hops : Int32
  pub cached_at : Int64
  pub ttl_seconds : Int32

pub record InvalidateCacheResponse : Type 0 where
  pub success : Bool
  pub entries_cleared : Int32

pub record HasChunkResponse : Type 0 where
  pub might_have : Bool
  pub confirmed : Bool

pub record DownloadChunkResponse : Type 0 where
  pub content : Bytes
  pub sha256_hash : Bytes
  pub success : Bool

pub record ChunkInfo : Type 0 where
  pub file_id : Bytes
  pub chunk_index : Int32
  pub sha256_hash : Bytes

pub record UploadFileResponse : Type 0 where
  pub file_id : Bytes
  pub total_chunks : Int32
  pub chunks : List ChunkInfo

pub route_response : Route → RouteResponse
route_response r = record { path = r.path; total_latency_ms = r.total_latency; hops = r.hops }

pub cache_entry : Int32 → Route → RouteCacheEntry
cache_entry ttl_seconds r = record {
  from_peer_id = r.from_peer_id;
  to_peer_id = r.to_peer_id;
  path = r.path;
  total_latency_ms = r.total_latency;
  hops = r.hops;
  cached_at = unix r.created_at;
  ttl_seconds = ttl_seconds;
}

-- The loop over the hashes, from index `i` on.
pub chunk_infos : Bytes → ℕ → List Bytes → List ChunkInfo
chunk_infos file_id i [] = []
chunk_infos file_id i (hash ∷ hashes) =
    record { file_id = file_id; chunk_index = to_int32 i; sha256_hash = hash }
    ∷ chunk_infos file_id (i + 1) hashes

pub upload_response : FileMetadata → UploadFileResponse
upload_response meta = record {
  file_id = meta.file_id;
  total_chunks = meta.total_chunks;
  chunks = chunk_infos meta.file_id 0 meta.chunk_hashes;
}

-- From the error or the route; the error is passed on.
pub route_outcome : Outcome Route → Outcome RouteResponse
route_outcome (ok route) = ok (route_response route)
route_outcome (err e) = err e
route_outcome out_of_fuel = out_of_fuel

pub data UploadReply (C : Type 0) : Type 0 where
  upload_answered : UploadFileResponse → PeerNode C → Disk → UploadReply C
  upload_failed : PeerNode C → Disk → UploadReply C
  upload_crashed : UploadReply C

-- `MightHaveChunk` and `ConfirmHasChunk` take the lock one after the other, so that the manager may
-- have changed between them. `none` stands for a panic of the filter.
pub has_chunk : StorageManager → StorageManager → Bytes → Int32 → Option HasChunkResponse
has_chunk first second file_id i = elim (might_have_chunk first file_id i) [
  | none ↦ none
  | some false ↦ some (record { might_have = false; confirmed = false })
  | some true ↦ some (record { might_have = true; confirmed = confirm_has_chunk second file_id i })
]

module _ {C : Type 0} where
  pub ping : Time → PeerNode C → PingResponse
  ping now p = record { responder_id = p.id; timestamp = now }

  pub get_network_graph :
      Range Int32 NetworkNode → Range Bytes NetworkEdge → PeerNode C → GraphResponse
  get_network_graph = get_graph_proto

  -- The answer is always an acknowledgement.
  pub notify_new_peer : Time → Int32 → Bytes → PeerNode C → Bool × PeerNode C
  notify_new_peer now peer_id address p =
      (true, record p { graph = add_node now peer_id address p.graph })

  pub calculate_route :
      (ℕ → List Int32 → List Int32)
      → Range Int32 NetworkNode
      → Range Bytes NetworkEdge
      → Int32
      → Int32
      → Moments
      → PeerNode C
      → Outcome RouteResponse × PeerNode C
  calculate_route order node_order edge_order from to t p =
      let graph = as_graph node_order edge_order p.graph in
      let (outcome, router) = Router.calculate_route order graph from to t p.router in
      (route_outcome outcome, record p { router = router })

  -- `seconds` is the method of time.Duration.
  pub get_route_cache :
      {F : Type 0}
      → Float64 F
      → (Time → F)
      → Range Bytes CachedRoute
      → Time
      → PeerNode C
      → List RouteCacheEntry
  get_route_cache fl seconds order now p =
      let cache = get_cache p.router in
      let ttl_seconds = to_int32 (fl.to_int (seconds (Cache.get_ttl cache))) in
      map (cache_entry ttl_seconds) (Cache.entries order now cache)

  pub invalidate_route_cache : PeerNode C → InvalidateCacheResponse × PeerNode C
  invalidate_route_cache p =
      let (router, cleared) = invalidate_cache p.router in
      (record { success = true; entries_cleared = to_int32 cleared }, record p { router = router })

  pub get_bloom_filter : PeerNode C → Serialized
  get_bloom_filter p = serialize p.storage.bloom

  pub upload_reply : PeerNode C → UploadResult → UploadReply C
  upload_reply p (uploaded meta sm disk) =
      upload_answered (upload_response meta) (record p { storage = sm }) disk
  upload_reply p (upload_error sm disk) = upload_failed (record p { storage = sm }) disk
  upload_reply p upload_panic = upload_crashed

  module _ (sha256 : Bytes → Bytes) (join : Bytes → Bytes → Bytes) where
    pub download_chunk : PeerNode C → Disk → Bytes → Int32 → DownloadChunkResponse
    download_chunk p disk file_id i =
        elim (Manager.download_chunk sha256 join p.storage disk file_id i) [
          | none ↦ record { content = []; sha256_hash = []; success = false }
          | some (content, hash) ↦ record { content = content; sha256_hash = hash; success = true }
        ]

    -- `none` stands for a Merkle tree that is never built.
    pub upload_file : PeerNode C → Disk → Bytes → Bytes → Bytes → Option (UploadReply C)
    upload_file p disk file_id file_name text =
        elim (Manager.upload_file sha256 join p.storage disk file_id file_name text) [
          | none ↦ none
          | some result ↦ some (upload_reply p result)
        ]
