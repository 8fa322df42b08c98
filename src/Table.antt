-- ===== src/Table.antt =====
-- src/table: rows decoded from tuples.
pub mod Rows
pub mod Reader
pub mod Databases
