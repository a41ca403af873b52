-- ===== src/Worker.antt =====
-- portal/app/workers/operation_worker.py. One round of the worker claims an operation and works on
-- it in a transaction, calls the provider with no transaction open, and stores what came back in a
-- second transaction.
pub mod Claim
pub mod Step
pub mod Transaction
pub mod Submit
pub mod Round
pub mod Frame
pub mod Ledger
pub mod Cluster
pub mod Local
pub mod Remote
pub mod Accepted
pub mod Isolation
pub mod Grace
pub mod Tests
