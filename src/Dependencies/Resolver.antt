-- ===== src/Dependencies/Resolver.antt =====
-- DependencyResolver of macloader/dependencies/resolver.py, over the dependency graph.
pub mod Catalog
pub mod Requests
pub mod Resolve
pub mod Admitted
pub mod Returned
pub mod Mapped
pub mod Needed
pub mod Expected
pub mod Composed
mod Samples
