-- ===== src/Worker/Frame.antt =====
-- What the first transaction of a round leaves alone: the provider, the operation's identity, and
-- outside a dispatch its count of attempts.
pub mod Reads
pub mod Polls
pub mod Silent
pub mod Took
pub mod Steps
pub mod Stores
