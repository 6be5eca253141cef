-- ===== src/BusinessId.antt =====
-- Externally visible business identifiers: core/business_id.py, runtime/business_id.py and
-- sql/business_id.py.
pub mod Core
pub mod Keys
pub mod Profile
pub mod Codes
pub mod Allocations
pub mod Permutation
pub mod Store
mod Samples
