-- ===== src/Configuration.antt =====
-- macloader/configuration: the configuration store.
pub mod Store
