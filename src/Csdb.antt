-- ===== src/Csdb.antt =====
-- src/csd/csdb.c: the capability and system information database.
pub mod Written
pub mod Key
pub mod Entry
pub mod Store
pub mod Paths
pub mod Unique
pub mod Values
pub mod Contract
pub mod Appending
pub mod Reach
pub mod Stored
