-- ===== src/Heap/Snapshot.antt =====
-- src/heap/snapshot.rs: `PgSnapshot` and `xmin_visible`.
pub mod Visible
mod Tests
use pg_arrow.Base.{ℕ, Bool, true, false, not, ◌||◌, List, [], ◌∷◌, ltb, leb, ◌==◌, if◌then◌else◌}

pub record PgSnapshot : Type 0 where
  pub xmin : ℕ
  pub xmax : ℕ
  pub xip : List ℕ

abbrev pub frozen_xid : ℕ
frozen_xid = 2

-- `slice.contains(&x)`
unfoldable pub contains : List ℕ → ℕ → Bool
contains [] x = false
contains (y ∷ ys) x = y == x || contains ys x

unfoldable pub xmin_visible : PgSnapshot → ℕ → Bool
xmin_visible s t_xmin =
    if leb t_xmin frozen_xid
    then true
    else if ltb t_xmin s.xmin
    then true
    else if leb s.xmax t_xmin
    then false
    else not (contains s.xip t_xmin)
