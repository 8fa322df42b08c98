-- ===== src/Heap.antt =====
-- src/heap: pages, tuples and snapshots.
pub mod Tuple
pub mod Page
pub mod Column
pub mod Snapshot
