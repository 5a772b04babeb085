-- ===== src/Query.antt =====
-- The SQL statements of internal/repository/postgresql, as functions of the tables.
pub mod Lifecycle
pub mod Payments
pub mod Writes
pub mod Listing
pub mod Creation
pub mod Sessions
pub mod Services
