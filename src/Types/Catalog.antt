-- ===== src/Types/Catalog.antt =====
-- src/types/catalog.rs and src/types/pg_type.rs: the system catalogs, their schemas and their rows.
pub mod Relation
pub mod Tables
pub mod Cursor
pub mod Reads
pub mod Class
pub mod Values
pub mod ClassFields
pub mod TypeRow
pub mod Attribute
pub mod Database
mod Tests
