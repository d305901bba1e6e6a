-- ===== src/Store.antt =====
-- deployables/backend/internal/store: the tables, and the queries over them.
pub mod Schema
pub mod Query
pub mod Billing
pub mod Backups
pub mod Accounts
pub mod Devices
pub mod Auth
pub mod Sessions
pub mod Usage
pub mod Maintenance
pub mod Calls
pub mod Tests
