-- ===== src/VirtualMachines.antt =====
-- portal/app/virtual_machines/services.py: what a user's request adds to the database.
pub mod Creation
pub mod Enqueue
pub mod Router
pub mod Answers
pub mod Tests
