-- ===== src/Types/TypeId.antt =====
-- src/types/codec.rs: the functions on `PgTypeId`.
mod Oids
mod Layout
pub mod RoundTrip
mod Tests
unfoldable pub use Oids.*
unfoldable pub use Layout.*
