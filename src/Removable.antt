-- ===== src/Removable.antt =====
-- macloader/removable/writer.py: the guarded removable-media writer.
pub mod Outcome
pub mod Device
pub mod Source
pub mod Plan
pub mod Published
pub mod Writer
mod Samples
