-- ===== src/Operations.antt =====
-- portal/app/operations/services.py: the steps that move an operation and its virtual machine.
pub mod Session
pub mod Create
pub mod Start
pub mod Lifecycle
