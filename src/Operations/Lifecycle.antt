-- ===== src/Operations/Lifecycle.antt =====
-- The operations vm.shutdown, vm.stop, vm.reboot and vm.delete.
pub mod Dispatch
pub mod Reconcile
pub mod Polling
