-- ===== src/Tests.antt =====
-- Runs of the models at concrete inputs, and the instances of the main theorems at them.
pub mod Audit
pub mod Car
pub mod Epochs
pub mod Handler
pub mod Inventory
pub mod LocalBlocks
pub mod Migration
pub mod RawStore
pub mod Readback
pub mod Receipts
pub mod Replicate
pub mod Resume
pub mod Router
pub mod Ship
pub mod Sources
pub mod Zstd
