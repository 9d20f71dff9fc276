-- ===== src/Dependencies.antt =====
-- macloader/dependencies: the dependency graph and the archives.
pub mod Graph
pub mod Archive
pub mod Resolver
pub mod Cache
