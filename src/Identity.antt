-- ===== src/Identity.antt =====
-- portal/app/identity: users, their identities and sessions, and the protection against forged
-- requests.
pub mod Csrf
pub mod Sessions
pub mod Requests
pub mod Authenticated
pub mod Entered
pub mod Login
pub mod Logout
pub mod Forgery
pub mod Callback
mod Tests
