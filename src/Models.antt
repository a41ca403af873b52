-- ===== src/Models.antt =====
-- The tables of the database (portal/app/*/models.py), a record for each row. A text column with a
-- CHECK constraint that lists its values is a data type of those values; an identifier is a number.
mod Requests
mod Machines
mod Plans
mod Database
mod Users
pub use Requests.*
pub use Machines.*
pub use Plans.*
pub use Database.*
pub use Users.*
