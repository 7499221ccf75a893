-- ===== src/Peer/Network.antt =====
-- internal/peer/peer.go: `NetworkGraph`. Each method holds the lock throughout, so it is one step. The
-- entries of the maps are never changed in place, so they are kept by value.
pub mod History
pub mod Snapshots
mod Tests
use file_sharing_system_with.Prelude.{ℕ, List, [], ◌∷◌, ◌++◌, map, Bytes, bytes_eq, nat_eq}
use file_sharing_system_with.Word.{Int32, Int64}
use file_sharing_system_with.GoMap.{GoMap, insert}
use file_sharing_system_with.GoMap.Range.{Range}
use file_sharing_system_with.Fmt.{format_int32}
use file_sharing_system_with.Routing.Types.{Time, GraphNode, GraphEdge, Graph}

pub record NetworkNode : Type 0 where
  pub id : Int32
  pub address : Bytes
  pub last_seen : Time

pub record NetworkEdge : Type 0 where
  pub from : Int32
  pub to : Int32
  pub latency_ms : Int64

pub record NetworkGraph : Type 0 where
  pub nodes : GoMap Int32 NetworkNode
  pub edges : GoMap Bytes NetworkEdge

abbrev pub new_network_graph : NetworkGraph
new_network_graph = record { nodes = []; edges = [] }

unfoldable pub add_node : Time → Int32 → Bytes → NetworkGraph → NetworkGraph
add_node now id address g = record g {
  nodes = insert id (record { id = id; address = address; last_seen = now }) g.nodes;
}

-- fmt.Sprintf("%d-%d", from, to)
unfoldable pub edge_key : Int32 → Int32 → Bytes
edge_key from to = format_int32 from ++ b'-' ∷ format_int32 to

unfoldable pub add_edge : Int32 → Int32 → Int64 → NetworkGraph → NetworkGraph
add_edge from to latency_ms g = record g {
  edges =
      insert (edge_key from to) (record { from = from; to = to; latency_ms = latency_ms }) g.edges;
}

unfoldable pub get_nodes : Range Int32 NetworkNode → NetworkGraph → List NetworkNode
get_nodes order g = map (λ e. e.1) (order g.nodes)

unfoldable pub get_edges : Range Bytes NetworkEdge → NetworkGraph → List NetworkEdge
get_edges order g = map (λ e. e.1) (order g.edges)

abbrev pub as_graph_node : Int32 × NetworkNode → GraphNode
as_graph_node e = record { id = e.1.id; address = e.1.address; last_seen = e.1.last_seen }

abbrev pub as_graph_edge : Bytes × NetworkEdge → GraphEdge
as_graph_edge e = record { from = e.1.from; to = e.1.to; latency_ms = e.1.latency_ms }

unfoldable pub get_node_list : Range Int32 NetworkNode → NetworkGraph → List GraphNode
get_node_list order g = map as_graph_node (order g.nodes)

unfoldable pub get_edge_list : Range Bytes NetworkEdge → NetworkGraph → List GraphEdge
get_edge_list order g = map as_graph_edge (order g.edges)

-- The value of the interface `routing.Graph`.
unfoldable pub as_graph : Range Int32 NetworkNode → Range Bytes NetworkEdge → NetworkGraph → Graph
as_graph node_order edge_order g = record {
  get_node_list = get_node_list node_order g;
  get_edge_list = get_edge_list edge_order g;
}
