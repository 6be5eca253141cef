-- ===== src/Ledger.antt =====
-- core/entity.py: the pending changes of an entity graph, and the ledger that an entity graph shares.
pub mod Defs
pub mod Root
pub mod Merge
pub mod Changes
pub mod Imports
pub mod Merging
pub mod Reads
pub mod Renaming
pub mod Soundness
pub mod Reachability
mod Samples
