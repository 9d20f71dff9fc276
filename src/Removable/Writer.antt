-- ===== src/Removable/Writer.antt =====
-- RemovableMediaWriter of macloader/removable/writer.py.
pub mod Source
pub mod Steps
pub mod Safety
pub mod Runs
pub mod Events
pub mod Target
pub mod Planned
