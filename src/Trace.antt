-- ===== src/Trace.antt =====
-- src/teaql/core/trace.py: the paths that a physical SQL statement is traced under.
pub mod Paths
pub mod Canonical
pub mod Readback
mod Samples
