-- ===== src/Peer/Network/History.antt =====
-- The graph as a history of its changes: what the last `AddNode` and `AddEdge` of each key wrote.
use file_sharing_system_with.Prelude.{
  ◌^◌, ◌<◌, ◌≡◌, refl, ◌&&◌, Option, none, some, List, [], ◌∷◌, Bytes, bytes_eq, bytes_beq,
  bytes_beq_iff, nat_eq, arith, ◌==◌, if◌then◌else◌, sym, ◌∙◌, All, Bool-cases, inl, inr,
}
use file_sharing_system_with.Word.{Int32, Int64}
use file_sharing_system_with.GoMap.{lookup}
use file_sharing_system_with.GoMap.Laws.{lookup-insert}
use file_sharing_system_with.GoMap.Unique.{IsUnique, insert-IsUnique}
use file_sharing_system_with.Fmt.{format_int32}
use file_sharing_system_with.Fmt.Split.{format_int32-prefix, format_int32-injective}
use file_sharing_system_with.Routing.Types.{Time}
use file_sharing_system_with.Peer.Network.{
  NetworkNode, NetworkEdge, NetworkGraph, new_network_graph, add_node, add_edge, edge_key,
}

-- A pair of peers with 32-bit identifiers has a key of its own.
pub edge_key-injective :
    (a b c d : Int32)
    → a < 2 ^ 32
    → b < 2 ^ 32
    → c < 2 ^ 32
    → d < 2 ^ 32
    → edge_key a b ≡ edge_key c d
    → (a ≡ c) × (b ≡ d)
unfolding edge_key
edge_key-injective a b c d ha hb hc hd e =
    let (front, rest) = format_int32-prefix a c (format_int32 b) (format_int32 d) ha hc e in
    (front, format_int32-injective b d hb hd rest)

-- The test of two edge keys compares the peers.
pub edge_key-beq :
    (a b c d : Int32)
    → a < 2 ^ 32
    → b < 2 ^ 32
    → c < 2 ^ 32
    → d < 2 ^ 32
    → bytes_beq (edge_key a b) (edge_key c d) ≡ (a == c && b == d)
edge_key-beq a b c d ha hb hc hd = elim (Bool-cases (bytes_beq (edge_key a b) (edge_key c d))) [
  | inl same ↦
      let (p, q) =
        edge_key-injective a b c d ha hb hc hd
          ((bytes_beq_iff (edge_key a b) (edge_key c d)).0 same) in
      ground (arith, same)
  | inr other ↦ elim (Bool-cases (a == c && b == d)) [
    | inr differ ↦ other ∙ sym differ
    | inl agree ↦
        let p : a ≡ c = ground arith in
        let q : b ≡ d = ground arith in
        let e : edge_key a b ≡ edge_key c d = cc in
        absurd (ground (arith, (bytes_beq_iff (edge_key a b) (edge_key c d)).1 e))
  ]
]

pub data Change : Type 0 where
  node : Time → Int32 → Bytes → Change
  edge : Int32 → Int32 → Int64 → Change

unfoldable pub make_change : Change → NetworkGraph → NetworkGraph
make_change (node now id address) g = add_node now id address g
make_change (edge from to latency) g = add_edge from to latency g

-- The graph after a history, whose latest change is its first.
unfoldable pub after : List Change → NetworkGraph
after [] = new_network_graph
after (c ∷ history) = make_change c (after history)

unfoldable pub latest_node : Int32 → List Change → Option NetworkNode
latest_node k [] = none
latest_node k (node now id address ∷ history) =
    if id == k
    then some (record { id = id; address = address; last_seen = now })
    else latest_node k history
latest_node k (edge _ _ _ ∷ history) = latest_node k history

pub latest_edge : Int32 → Int32 → List Change → Option NetworkEdge
latest_edge a b [] = none
latest_edge a b (node _ _ _ ∷ history) = latest_edge a b history
latest_edge a b (edge from to latency ∷ history) =
    if from == a && to == b
    then some (record { from = from; to = to; latency_ms = latency })
    else latest_edge a b history

-- All identifiers of the history are int32 values.
abbrev pub InRange : Change → Type 0
InRange (node now id address) = id < 2 ^ 32
InRange (edge from to latency) = (from < 2 ^ 32) × (to < 2 ^ 32)

pub lookup-after_nodes :
    (k : Int32) (history : List Change) → lookup k (after history).nodes ≡ latest_node k history
unfolding after make_change latest_node add_node add_edge lookup
lookup-after_nodes k [] = refl
lookup-after_nodes k (node now id address ∷ history) = ground (
  arith,
  lookup-insert id k (record { id = id; address = address; last_seen = now }) (after history).nodes,
  lookup-after_nodes k history,
)
lookup-after_nodes k (edge from to latency ∷ history) = lookup-after_nodes k history

pub lookup-after_edges :
    (a b : Int32) (history : List Change)
    → a < 2 ^ 32
    → b < 2 ^ 32
    → All InRange history
    → lookup (edge_key a b) (after history).edges ≡ latest_edge a b history
unfolding after make_change latest_edge add_node add_edge lookup
lookup-after_edges a b [] ha hb h = refl
lookup-after_edges a b (node now id address ∷ history) ha hb h =
    lookup-after_edges a b history ha hb h.1
lookup-after_edges a b (edge from to latency ∷ history) ha hb h = ground (
  arith,
  lookup-insert (edge_key from to) (edge_key a b)
      (record { from = from; to = to; latency_ms = latency }) (after history).edges,
  edge_key-beq from to a b h.0.0 h.0.1 ha hb,
  lookup-after_edges a b history ha hb h.1,
)

pub after-IsUnique :
    (history : List Change) → IsUnique (after history).nodes × IsUnique (after history).edges
unfolding after make_change add_node add_edge
after-IsUnique [] = (tt, tt)
after-IsUnique (node now id address ∷ history) =
    let (u, v) = after-IsUnique history in
    (
      insert-IsUnique id (record { id = id; address = address; last_seen = now })
          (after history).nodes u,
      v,
    )
after-IsUnique (edge from to latency ∷ history) =
    let (u, v) = after-IsUnique history in
    (
      u,
      insert-IsUnique (edge_key from to) (record { from = from; to = to; latency_ms = latency })
          (after history).edges v,
    )
