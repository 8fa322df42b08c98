-- ===== src/Heap/Snapshot/Tests.antt =====
-- The theorem on visibility at the snapshot `100:105:101,103`.
use pg_arrow.Base.{◌≤◌, ◌<◌, ◌≡◌, ◌≢◌, ◌⊎◌, ◌↔◌, true, [], ◌∷◌, All}
use pg_arrow.Heap.Snapshot.{PgSnapshot, frozen_xid, xmin_visible}
use pg_arrow.Heap.Snapshot.Visible.{xmin_visible_iff}

abbrev snapshot : PgSnapshot
snapshot = record { xmin = 100; xmax = 105; xip = 101 ∷ 103 ∷ [] }

xmin_visible_iff_example : (xmin_visible snapshot 102 ≡ true) ↔ (
    (102 ≤ frozen_xid)
    ⊎ (102 < snapshot.xmin)
    ⊎ ((102 < snapshot.xmax) × All (λ x. x ≢ 102) snapshot.xip))
xmin_visible_iff_example = xmin_visible_iff snapshot 102
