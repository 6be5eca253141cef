-- ===== src/Sql.antt =====
-- src/teaql/sql/dialect.py: the SQL statements and their bound values.
pub mod Core
pub mod Exprs
pub mod Writes
pub mod Operators
pub mod Clauses
pub mod Parts
pub mod Select
pub mod Texts
pub mod Numbering
pub mod Order
mod Ordinary
pub mod Versions
pub mod Counted
pub mod Silent
pub mod Plain
pub mod Assembly
pub mod SelectOrder
mod Samples
mod SelectSamples
pub mod Identifiers
