-- ===== src/BusinessId/Store.antt =====
-- src/teaql/sql/business_id.py: the allocator that keeps its counters in a database table.
pub mod Table
pub mod Allocator
pub mod Growth
pub mod Returns
pub mod Fresh
pub mod Unique
pub mod Bounds
pub mod Counted
pub mod Refinement
pub mod Progress
pub mod Solo
mod Samples
