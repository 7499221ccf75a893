-- ===== src/Routing/Types.antt =====
-- internal/routing/types.go: what the router reads from a graph, and the route that it returns.
use file_sharing_system_with.Prelude.{ℕ, ◌/◌, ◌^◌, List, Bytes}
use file_sharing_system_with.Word.{Int32, Int64}

-- time.Time and time.Duration: nanoseconds on one clock.
abbrev pub Time : Type 0
Time = ℕ

pub record GraphNode : Type 0 where
  pub id : Int32
  pub address : Bytes
  pub last_seen : Time

pub record GraphEdge : Type 0 where
  pub from : Int32
  pub to : Int32
  pub latency_ms : Int64

-- The `Graph` interface: the two snapshots that its methods return.
pub record Graph : Type 0 where
  pub get_node_list : List GraphNode
  pub get_edge_list : List GraphEdge

pub record Route : Type 0 where
  pub from_peer_id : Int32
  pub to_peer_id : Int32
  pub path : List Int32
  pub total_latency : Int64
  pub hops : Int32
  pub created_at : Time

-- t.Unix()
unfoldable pub unix : Time → Int64
unix t = t / 10 ^ 9
