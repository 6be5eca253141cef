-- ===== src/Stream.antt =====
-- src/teaql/runtime/query_stream.py: the typed stream of a query's rows.
pub mod TypedStream
pub mod Ends
mod Samples
