-- ===== src/Routing.antt =====
-- internal/routing: the graph that the router reads, routes, the route cache and Dijkstra's search.
pub mod Types
pub mod Walks
pub mod Cache
pub mod Dijkstra
pub mod Router
pub mod Analyzer
pub mod Bottlenecks
