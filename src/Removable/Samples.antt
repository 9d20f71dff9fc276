-- ===== src/Removable/Samples.antt =====
-- A small medium: a USB stick, a source directory with its published contracts, and a plan for it.
pub mod Equality
pub mod Media
pub mod Checked
pub mod Written
