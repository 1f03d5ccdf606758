-- ===== src/Graph.antt =====
-- common/src/graph.c.
pub mod Counts
pub mod Emitter
pub mod Connector
pub mod Recursive
pub mod Inplace
pub mod Chunk
pub mod Edges
pub mod Region
pub mod Pool
pub mod Wave
pub mod SlotMap
