-- ===== src/Inventory.antt =====
-- The inventory demo: demos/demo1/src.
pub mod Store
pub mod Service
pub mod Rollback
pub mod Ledger
pub mod Sales
pub mod Agreement
pub mod Report
pub mod Calls
pub mod Concurrent
pub mod Steps
pub mod Balance
pub mod Finishing
pub mod TestRun
pub mod Controller
pub mod Answers
