-- ===== src/Table/Databases.antt =====
-- src/table/mod.rs: `list_databases` and `get_database_oid`. The fuel is the pages that the loop may
-- ask for.
pub mod Walk
pub mod Live
pub mod Lookup
mod Tests
use pg_arrow.Base.{
  ℕ, zero, suc, ◌+◌, ◌%◌, ◌^◌, Bool, Bytes, List, [], ◌∷◌, ◌++◌, Option, none, some, Result, ok,
  err, panic, ◌>>=◌, ◌==◌, if◌then◌else◌, get_elem?,
}
use pg_arrow.Types.Schema.{bytes_eq}
use pg_arrow.Types.Catalog.Relation.{catalog_schema}
use pg_arrow.Types.Catalog.Tables.{pg_database}
use pg_arrow.Types.Catalog.Database.{PgDatabase}
use pg_arrow.Types.Catalog.Database
use pg_arrow.File.Error.{PgError}
use pg_arrow.File.Reader.{FileSystem}
use pg_arrow.File.Reader.Pages.{PageReader, PageRead, get_page_reader, get_page_by_index}
use pg_arrow.Heap.Tuple.{HeapTupleData}
use pg_arrow.Heap.Page.{HeapPageData, lp_flags, lp_normal, get_row_data}

-- The databases so far, or a panic.
abbrev pub Listed : Type 0
Listed = Result PgError (List PgDatabase)

-- `if !row.datname.is_empty()`
unfoldable pub push_if_named : List PgDatabase → PgDatabase → Bytes → List PgDatabase
push_if_named out row [] = out
push_if_named out row (b ∷ bs) = out ++ (row ∷ [])

-- What is read of a tuple: an error of `from_row` is left out.
unfoldable pub push_named : List PgDatabase → Result PgError PgDatabase → Listed
unfolding push_if_named
push_named out (err e) = ok out
push_named out panic = panic
push_named out (ok row) = ok (push_if_named out row row.datname)

-- The tuple of a slot: an error of `get_row_data` is skipped, and so is a row with an `xmax`.
unfoldable pub push_tuple : List PgDatabase → Result PgError HeapTupleData → Listed
unfolding push_named
push_tuple out (err e) = ok out
push_tuple out panic = panic
push_tuple out (ok tuple) =
    if tuple.header.t_xmax == 0
    then push_named out (Database.from_row tuple (catalog_schema pg_database))
    else ok out

-- The slot of a line pointer; `lp_items[posid]` panics behind the end.
unfoldable pub list_pointer : HeapPageData → List PgDatabase → ℕ → Option ℕ → Listed
unfolding push_tuple
list_pointer page out posid none = panic
list_pointer page out posid (some lp) =
    if lp_flags lp == lp_normal then push_tuple out (get_row_data page (posid % 2 ^ 16)) else ok out

-- One round of the loop over the slots.
unfoldable pub list_slot : HeapPageData → List PgDatabase → ℕ → Listed
list_slot page out posid = list_pointer page out posid (get_elem? page.lp_items posid)

-- The slots from `posid` on, `n` of them.
unfoldable pub list_slots : HeapPageData → List PgDatabase → (posid n : ℕ) → Listed
list_slots page out posid zero = ok out
list_slots page out posid (suc n) =
    list_slot page out posid >>= λ out'. list_slots page out' (suc posid) n

-- The page has been walked.
unfoldable pub after_slots : (List PgDatabase → Option Listed) → Listed → Option Listed
after_slots next (ok out) = next out
after_slots next (err e) = some (err e)
after_slots next panic = some panic

-- What the page reader gives: an error of it ends the loop.
unfoldable pub after_page :
    (PageReader → List PgDatabase → Option Listed) → List PgDatabase → PageRead → Option Listed
unfolding after_slots
after_page next out (err e, reader) = some (ok out)
after_page next out (panic, reader) = some panic
after_page next out (ok page, reader) =
    after_slots (next reader) (list_slots page out 0 page.lp_num)

-- The loop over the pages.
unfoldable pub list_pages : FileSystem → ℕ → PageReader → ℕ → List PgDatabase → Option Listed
list_pages fs zero reader page_index out = none
list_pages fs (suc fuel) reader page_index out =
    after_page (λ reader' out'. list_pages fs fuel reader' (page_index + 1) out') out
      (get_page_by_index fs reader page_index)

unfoldable pub list_databases : FileSystem → ℕ → Option Listed
list_databases fs fuel =
    list_pages fs fuel (get_page_reader (record { relation_id = 1262; db_id = 0 })) 0 []

-- `find(|d| d.datname == datname).map(|d| d.oid)`
unfoldable pub find_oid : Bytes → List PgDatabase → Option ℕ
find_oid datname [] = none
find_oid datname (d ∷ ds) =
    let later = find_oid datname ds in if bytes_eq d.datname datname then some d.oid else later

unfoldable pub look_up : Bytes → Option Listed → Option (Result PgError (Option ℕ))
look_up datname none = none
look_up datname (some listed) = some (listed >>= λ databases. ok (find_oid datname databases))

unfoldable pub get_database_oid : FileSystem → ℕ → Bytes → Option (Result PgError (Option ℕ))
unfolding look_up
get_database_oid fs fuel datname = look_up datname (list_databases fs fuel)
