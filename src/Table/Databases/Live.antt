-- ===== src/Table/Databases/Live.antt =====
-- `list_databases` against the rows of pg_database that are live, decode and have a name.
use mathlib.Core.List.{append_assoc, append-nil}
use pg_arrow.Base.{
  ℕ, ◌<◌, ◌≡◌, refl, ap, sym, ◌∙◌, inl, inr, Bytes, List, [], ◌∷◌, ◌++◌, some, Result, ok, err,
  panic, ◌>>=◌, ◌==◌, length, Bool-cases,
}
use pg_arrow.Types.Catalog.Relation.{catalog_schema}
use pg_arrow.Types.Catalog.Tables.{pg_database}
use pg_arrow.Types.Catalog.Database.{PgDatabase}
use pg_arrow.Types.Catalog.Database
use pg_arrow.File.Error.{PgError}
use pg_arrow.File.Reader.{FileSystem}
use pg_arrow.File.Scan.Pages.{rows_of, visit_all}
use pg_arrow.Heap.Page.{HeapPageData}
use pg_arrow.Heap.Tuple.{HeapTupleData}
use pg_arrow.Table.Reader.Fetch.{Stored, kept, keep_first, live_rows}
use pg_arrow.Table.Databases.{Listed, push_if_named, push_named, push_tuple, list_databases}
use pg_arrow.Table.Databases.Walk.{visit, bind_bind, list_pages-rows_of}

-- The databases with a name.
unfoldable pub if_named : PgDatabase → Bytes → List PgDatabase → List PgDatabase
if_named d [] rest = rest
if_named d (b ∷ bs) rest = d ∷ rest

unfoldable pub named : List PgDatabase → List PgDatabase
unfolding if_named
named [] = []
named (d ∷ ds) = if_named d d.datname (named ds)

keep_rest :
    (rest : Listed) (out : List PgDatabase) (row : PgDatabase)
    → (rest >>= λ a. ok ((out ++ (row ∷ [])) ++ named a))
      ≡ (rest >>= λ a. ok (out ++ (row ∷ named a)))
keep_rest (ok a) out row = ap ok (append_assoc out (row ∷ []) (named a))
keep_rest (err e) out row = refl
keep_rest panic out row = refl

keep_if_named :
    (name : Bytes) (row : PgDatabase) (out : List PgDatabase) (next : List PgDatabase → Listed)
    (rest : Listed)
    → ((more : List PgDatabase) → next more ≡ (rest >>= λ a. ok (more ++ named a)))
    → next (push_if_named out row name) ≡ (rest >>= λ a. ok (out ++ if_named row name (named a)))
unfolding push_if_named if_named
keep_if_named [] row out next rest h = h out
keep_if_named (b ∷ bs) row out next rest h = h (out ++ (row ∷ [])) ∙ keep_rest rest out row

-- A row in front of those that come later.
keep_named :
    (r : Result PgError PgDatabase) (out : List PgDatabase) (next : List PgDatabase → Listed)
    (rest : Listed)
    → ((more : List PgDatabase) → next more ≡ (rest >>= λ a. ok (more ++ named a)))
    → (push_named out r >>= next) ≡ (keep_first r rest >>= λ a. ok (out ++ named a))
unfolding push_named keep_first named
keep_named (ok row) out next rest h =
    keep_if_named row.datname row out next rest h
    ∙ sym (bind_bind rest (λ more. ok (row ∷ more)) (λ a. ok (out ++ named a)))
keep_named (err e) out next rest h = h out
keep_named panic out next rest h = refl

abbrev pub databases_in : List HeapTupleData → Listed
databases_in rows = do
  databases ← kept (λ t. Database.from_row t (catalog_schema pg_database)) (live_rows rows)
  ok (named databases)

visit_all-kept :
    (ts : List HeapTupleData) (out : List PgDatabase)
    → visit_all visit out ts ≡ (
        kept (λ t. Database.from_row t (catalog_schema pg_database)) (live_rows ts) >>= λ a.
        ok (out ++ named a))
unfolding visit_all kept push_tuple live_rows named
visit_all-kept [] out = ap ok (sym (append-nil out))
visit_all-kept (t ∷ ts) out = elim (Bool-cases (t.header.t_xmax == 0)) [
  | inl live ↦ rw live (
      keep_named (Database.from_row t (catalog_schema pg_database)) out (λ a. visit_all visit a ts)
        _ (λ more. visit_all-kept ts more))
  | inr dead ↦ rw dead (visit_all-kept ts out)
]

-- On pg_database as its page reader gives it, page after page up to an error behind the last, and with
-- a round for each page and one more: `list_databases` ends, and gives what `PgDatabase::from_row`
-- reads, of the rows that the row iterator gives, of those without an `xmax`, without the rows that do
-- not decode and those without a name; where one of these reads panics, it panics.
pub list_databases-databases_in :
    (fs : FileSystem) (fuel : ℕ) (pages : List HeapPageData)
    → Stored fs 0 1262 pages
    → length pages < fuel
    → list_databases fs fuel ≡ some (databases_in (rows_of pages))
unfolding list_databases
list_databases-databases_in fs fuel pages (served, all, small) enough =
    list_pages-rows_of fs pages fuel 0 _ [] served all enough
    ∙ ap some (visit_all-kept (rows_of pages) [])
