-- ===== src/Dependencies/Graph.antt =====
-- macloader/dependencies/graph.py: the dependency graph and its resolution order.
mod Defs
pub mod Closure
pub mod Search
mod Invariant
mod Visit
pub mod Order
pub mod Acyclic
pub mod Nodes
mod Samples
unfoldable pub use Defs.*
