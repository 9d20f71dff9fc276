-- ===== src/Compatibility.antt =====
-- macloader/compatibility: the matching of models and the engine that judges a computer.
pub mod State
pub mod Matcher
pub mod Registry
pub mod Hardware
pub mod Components
pub mod Engine
