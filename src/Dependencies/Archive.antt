-- ===== src/Dependencies/Archive.antt =====
-- macloader/dependencies/archive.py: the inspection of zip archives.
pub mod Names
pub mod Check
pub mod Safe
pub mod Below
pub mod Accepts
mod Samples
