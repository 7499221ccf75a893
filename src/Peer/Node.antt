-- ===== src/Peer/Node.antt =====
-- internal/peer/peer.go: `PeerNode`. The analyzer's only field is the router, which `AnalyzeNetwork`
-- does not read, so it has no field here. `C` is the type of the gRPC connections; what the
-- network answers is an argument.
pub mod Latency
mod Tests
use file_sharing_system_with.Prelude.{
  ℕ, zero, suc, ◌+◌, ◌^◌, Bool, true, false, not, Option, none, some, List, [], ◌∷◌, ◌++◌, map,
  Bytes, nat_eq, ◌==◌, if◌then◌else◌,
}
use file_sharing_system_with.Word.{Int32, Int64, add64, div64}
use file_sharing_system_with.Float.{Float64}
use file_sharing_system_with.Fmt.{format_int32, format_int64}
use file_sharing_system_with.GoMap.{GoMap}
use file_sharing_system_with.GoMap.Range.{Range}
use file_sharing_system_with.Routing.Types.{Time, Route, unix}
use file_sharing_system_with.Routing.Dijkstra.{Outcome}
use file_sharing_system_with.Routing.Router
use file_sharing_system_with.Routing.Router.{DijkstraRouter, Moments, new_dijkstra_router}
use file_sharing_system_with.Routing.Analyzer.{NetworkStats, analyze_network}
use file_sharing_system_with.Storage.Disk.{Disk}
use file_sharing_system_with.Storage.Manager.{
  StorageManager, NewManager, made, make_error, make_panic, new_storage_manager,
}
use file_sharing_system_with.Bootstrap.{PeerInfo, RegisterResponse}
use file_sharing_system_with.Peer.Network.{
  NetworkNode, NetworkEdge, NetworkGraph, new_network_graph, add_node, get_nodes, get_edges,
  as_graph,
}

pub record PeerNode (C : Type 0) : Type 0 where
  pub id : Int32
  pub port : Int64
  pub address : Bytes
  pub bootstrap_addr : Bytes
  pub graph : NetworkGraph
  pub router : DijkstraRouter
  pub storage : StorageManager
  pub connections : GoMap Int32 C

-- fmt.Sprintf("./data/peer-%d", id)
pub storage_dir : Int32 → Bytes
storage_dir id =
    b'.'
    ∷ b'/'
    ∷ b'd'
    ∷ b'a'
    ∷ b't'
    ∷ b'a'
    ∷ b'/'
    ∷ b'p'
    ∷ b'e'
    ∷ b'e'
    ∷ b'r'
    ∷ b'-'
    ∷ format_int32 id

-- fmt.Sprintf("localhost:%d", port)
pub local_address : Int64 → Bytes
local_address port =
    b'l' ∷ b'o' ∷ b'c' ∷ b'a' ∷ b'l' ∷ b'h' ∷ b'o' ∷ b's' ∷ b't' ∷ b':' ∷ format_int64 port

unfoldable pub make_node : {C : Type 0} → Int32 → Int64 → Bytes → StorageManager → PeerNode C
make_node id port bootstrap_addr storage = record {
  id = id;
  port = port;
  address = local_address port;
  bootstrap_addr = bootstrap_addr;
  graph = new_network_graph;
  router = new_dijkstra_router;
  storage = storage;
  connections = [];
}

-- `none` where the program ends, by log.Fatalf or by a panic.
unfoldable pub new_peer_node :
    {F C : Type 0} → Float64 F → Disk → Int32 → Int64 → Bytes → Option (PeerNode C)
new_peer_node fl disk id port bootstrap_addr =
    elim (new_storage_manager fl disk id (storage_dir id)) [
      | make_error ↦ none
      | make_panic ↦ none
      | made storage ↦ some (make_node id port bootstrap_addr storage)
    ]

module _ {C : Type 0} where
  -- The router may keep the new route in its cache.
  unfoldable pub calculate_route :
      (ℕ → List Int32 → List Int32)
      → Range Int32 NetworkNode
      → Range Bytes NetworkEdge
      → Int32
      → Moments
      → PeerNode C
      → Outcome Route × PeerNode C
  calculate_route order node_order edge_order to t p =
      let graph = as_graph node_order edge_order p.graph in
      let (outcome, router) = Router.calculate_route order graph p.id to t p.router in
      (outcome, record p { router = router })

  pub get_network_stats :
      {F : Type 0}
      → Float64 F
      → Range Int32 NetworkNode
      → Range Bytes NetworkEdge
      → PeerNode C
      → NetworkStats F
  get_network_stats fl node_order edge_order p =
      analyze_network fl (as_graph node_order edge_order p.graph)

  -- Whether the client could be made, and the response if the call succeeded; `none` for an error.
  unfoldable pub register_with_bootstrap :
      Bool → Option RegisterResponse → Time → PeerNode C → Option (List PeerInfo) × PeerNode C
  register_with_bootstrap false response now p = (none, p)
  register_with_bootstrap true none now p = (none, p)
  register_with_bootstrap true (some response) now p =
      if not response.success
      then (none, p)
      else (some response.peers, record p { graph = add_node now p.id p.address p.graph })

  -- Errors of closing a connection are only printed.
  unfoldable pub close : PeerNode C → PeerNode C
  close p = record p { connections = [] }

-- elapsed.Milliseconds()
unfoldable pub milliseconds : Int64 → Int64
milliseconds elapsed = div64 elapsed (10 ^ 6)

-- The rounds of `measureLatency`, of which `n` are left. A ping gives its elapsed time, or fails.
unfoldable pub ping_loop : (ℕ → Option Int64) → ℕ → ℕ → Int64 → Option Int64
ping_loop ping zero i total = some total
ping_loop ping (suc n) i total = elim (ping i) [
  | none ↦ none
  | some elapsed ↦ ping_loop ping n (i + 1) (add64 total (milliseconds elapsed))
]

unfoldable pub average_latency : Int64 → Int64
average_latency total =
    let avg_latency = div64 total 3 in if avg_latency == 0 then 1 else avg_latency

unfoldable pub measure_latency : (ℕ → Option Int64) → Option Int64
measure_latency ping = elim (ping_loop ping 3 0 0) [
  | none ↦ none
  | some total ↦ some (average_latency total)
]

-- The protobuf messages of the graph.
pub record ProtoNode : Type 0 where
  pub id : Int32
  pub address : Bytes
  pub last_seen : Int64

pub record ProtoEdge : Type 0 where
  pub from_id : Int32
  pub to_id : Int32
  pub latency_ms : Int64

pub record GraphResponse : Type 0 where
  pub nodes : List ProtoNode
  pub edges : List ProtoEdge

pub proto_node : NetworkNode → ProtoNode
proto_node n = record { id = n.id; address = n.address; last_seen = unix n.last_seen }

pub proto_edge : NetworkEdge → ProtoEdge
proto_edge e = record { from_id = e.from; to_id = e.to; latency_ms = e.latency_ms }

pub get_graph_proto :
    {C : Type 0} → Range Int32 NetworkNode → Range Bytes NetworkEdge → PeerNode C → GraphResponse
get_graph_proto node_order edge_order p = record {
  nodes = map proto_node (get_nodes node_order p.graph);
  edges = map proto_edge (get_edges edge_order p.graph);
}
