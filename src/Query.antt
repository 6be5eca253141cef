-- ===== src/Query.antt =====
-- src/teaql/core/query.py: what the builders of a query guarantee.
pub mod Limits
pub mod Limiting
pub mod Refusing
pub mod Filters
pub mod Deleted
mod Samples
