-- ===== src/SshKeys.antt =====
-- portal/app/ssh_keys: the users' SSH public keys, imported or generated.
pub mod Parsing
pub mod Services
pub mod Router
pub mod Generated
pub mod Imported
pub mod Listed
mod Tests
