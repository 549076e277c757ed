-- ===== src/Examples.antt =====
-- The theorems at concrete inputs, and runs of the model on the cases of the Go tests.
pub mod Data
pub mod Pool
pub mod Pending
pub mod Sealing
pub mod Spend
pub mod Admission
pub mod Benching
pub mod Loading
pub mod Serving
pub mod Migrating
pub mod Storing
pub mod Supplying
pub mod Reloading
