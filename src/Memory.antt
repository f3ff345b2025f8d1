-- ===== src/Memory.antt =====
-- The node array and its copying collector: src/utils.c.
pub mod Nodes
pub mod Collector
pub mod Represents
pub mod Forward
pub mod Writes
pub mod Mark
pub mod CopyNode
pub mod CopyChain
pub mod CopyLoop
pub mod Copy
pub mod Preserve
pub mod Allocate
pub mod Cons
pub mod NewNode
pub mod Capacity
pub mod Variables
pub mod Scan
