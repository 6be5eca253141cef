-- ===== src/Rows.antt =====
-- core/list.py: the typed rows of a query, and their merging and grouping by key.
pub mod SmartList
pub mod Grouping
pub mod Merging
mod Samples
