-- ===== src/File.antt =====
-- src/file: errors, relation maps and the page reader.
pub mod Error
pub mod Relation
pub mod Reader
pub mod Stream
pub mod Scan
