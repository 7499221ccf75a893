-- ===== src/Peer/Print.antt =====
-- internal/peer/peer.go: `PrintGraph`. A line that is printed is its format with the arguments. The
-- arguments `sort_nodes` and `sort_edges` are sort.Slice on the two types of its elements.
pub mod Same
mod Tests
use file_sharing_system_with.Prelude.{
  ℕ, Bool, not, List, [], ◌∷◌, ◌++◌, map, Bytes, length, nat_eq, ◌==◌, if◌then◌else◌,
}
use file_sharing_system_with.Word.{Int32, Int64, slt32}
use file_sharing_system_with.GoMap.Range.{Range}
use file_sharing_system_with.Peer.Network.{NetworkNode, NetworkEdge, get_nodes, get_edges}
use file_sharing_system_with.Peer.Node.{PeerNode}

pub data Line : Type 0 where
  -- an empty line
  blank : Line
  -- "=== PEER-%d NETWORK GRAPH ==="
  title : Int32 → Line
  -- "Nodes (%d):"
  nodes_header : ℕ → Line
  -- "  %d: %s"
  node_line : Int32 → Bytes → Line
  -- "Edges (%d):"
  edges_header : ℕ → Line
  -- "  %d → %d (latency: %dms)"
  edge_line : Int32 → Int32 → Int64 → Line
  -- thirty times "="
  rule : Line

-- The arguments `less` of the two calls of sort.Slice.
pub node_less : NetworkNode → NetworkNode → Bool
node_less a b = slt32 a.id b.id

pub edge_less : NetworkEdge → NetworkEdge → Bool
edge_less a b = if not (a.from == b.from) then slt32 a.from b.from else slt32 a.to b.to

pub print_node : Int32 → NetworkNode → Line
print_node self n =
    let addr =
      if n.id == self
      then b'l' ∷ b'o' ∷ b'c' ∷ b'a' ∷ b'l' ∷ b'h' ∷ b'o' ∷ b's' ∷ b't' ∷ []
      else n.address in
    node_line n.id addr

pub print_edge : NetworkEdge → Line
print_edge e = edge_line e.from e.to e.latency_ms

-- What is printed.
pub print_graph :
    {C : Type 0}
    → ((NetworkNode → NetworkNode → Bool) → List NetworkNode → List NetworkNode)
    → ((NetworkEdge → NetworkEdge → Bool) → List NetworkEdge → List NetworkEdge)
    → Range Int32 NetworkNode
    → Range Bytes NetworkEdge
    → PeerNode C
    → List Line
print_graph sort_nodes sort_edges node_order edge_order p =
    let nodes = sort_nodes node_less (get_nodes node_order p.graph) in
    let edges = sort_edges edge_less (get_edges edge_order p.graph) in
    (blank ∷ title p.id ∷ nodes_header (length nodes) ∷ map (print_node p.id) nodes)
    ++ (edges_header (length edges) ∷ map print_edge edges)
    ++ rule ∷ []
