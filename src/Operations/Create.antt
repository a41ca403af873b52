-- ===== src/Operations/Create.antt =====
-- The operation vm.create, which goes through the phases clone, configure, resize and start.
pub mod Provision
pub mod Refresh
pub mod Dispatch
pub mod Reconcile
