-- ===== src/Compatibility/Engine.antt =====
-- CompatibilityEngine of macloader/compatibility/engine.py.
pub mod Findings
pub mod Devices
pub mod Overall
pub mod Evaluate
pub mod Draft
pub mod Severity
pub mod Coverage
pub mod Planable
pub mod Categories
pub mod Basic
pub mod Reported
pub mod Distinct
pub mod Capabilities
pub mod Requested
pub mod Samples
