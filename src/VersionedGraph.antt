-- ===== src/VersionedGraph.antt =====
-- python/versioned_graph.py: a directed graph that answers for every past version of itself.
pub mod Search
pub mod Graph
pub mod Edges
pub mod Bfs
mod Tests
