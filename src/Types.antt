-- ===== src/Types.antt =====
-- src/types: PostgreSQL's types, their on-disk codec, and schemas.
pub mod Defs
pub mod TypeId
pub mod Info
pub mod Datum
pub mod Fixed
pub mod Codec
pub mod Schema
pub mod Catalog
pub mod Numeric
