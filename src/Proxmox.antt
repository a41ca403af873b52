-- ===== src/Proxmox.antt =====
-- The provider side: what an adapter promises, the adapter that is kept in memory, and the one that
-- speaks to Proxmox through its client.
mod Contracts
pub mod Fake
pub mod Json
pub mod Client
pub mod Promise
pub mod Http
pub mod Tests
pub use Contracts.*
