-- ===== src/Storage.antt =====
-- internal/storage and internal/storage/sqlite: the tables, the SQL that the program sends, and the
-- operations of the store.
pub mod Stamp
pub mod Sql
pub mod Schema
pub mod Requests
pub mod Clients
pub mod Deliveries
pub mod Deferred
pub mod History
