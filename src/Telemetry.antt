-- ===== src/Telemetry.antt =====
-- runtime/telemetry_queue.py: the bounded admission queue in front of the exporting SDK.
pub mod Queue
mod Entries
mod Phases
pub mod Books
mod Settling
mod Exports
mod Keeping
mod Balance
mod Refusals
mod Withdrawal
pub mod Runs
mod Fair
mod Excess
mod Once
mod Admissions
pub mod Offers
pub mod Waiting
mod Samples
