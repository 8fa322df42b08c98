-- ===== src/Table/Databases/Lookup.antt =====
-- `get_database_oid` finds the first database of a name.
use pg_arrow.Base.{
  ℕ, ◌<◌, ◌≡◌, ◌≢◌, refl, ap, ◌∙◌, inl, inr, Bytes, List, [], ◌∷◌, ◌++◌, All, Option, none, some,
  ok, length, Bool-cases,
}
use pg_arrow.Types.Schema.{bytes_eq}
use pg_arrow.Types.Schema.Names.{bytes_eq-same, bytes_eq-other}
use pg_arrow.Types.Catalog.Database.{PgDatabase}
use pg_arrow.File.Reader.{FileSystem}
use pg_arrow.File.Scan.Pages.{rows_of}
use pg_arrow.Heap.Page.{HeapPageData}
use pg_arrow.Table.Reader.Fetch.{Stored}
use pg_arrow.Table.Databases.{find_oid, get_database_oid, look_up}
use pg_arrow.Table.Databases.Live.{databases_in, list_databases-databases_in}

-- The OID of the first database of that name.
abbrev pub Finds : Bytes → List PgDatabase → Option ℕ → Type 0
Finds name databases none = All (λ d. d.datname ≢ name) databases
Finds name databases (some oid) =
    (before : List PgDatabase) × (d : PgDatabase) × (after : List PgDatabase) × (databases
      ≡ before ++ (d ∷ after))
    × (d.datname ≡ name)
    × (d.oid ≡ oid)
    × All (λ b. b.datname ≢ name) before

find_oid-Finds :
    (name : Bytes) (databases : List PgDatabase) → Finds name databases (find_oid name databases)
unfolding find_oid
find_oid-Finds name [] = tt
find_oid-Finds name (d ∷ ds) = elim (Bool-cases (bytes_eq d.datname name)) [
  | inl same ↦ rw same ([], d, ds, refl, bytes_eq-same d.datname name same, refl, tt)
  | inr other ↦
      rw other
        (later (find_oid name ds) (bytes_eq-other d.datname name other) (find_oid-Finds name ds))
]
  where
    later : (found : Option ℕ) → d.datname ≢ name → Finds name ds found → Finds name (d ∷ ds) found
    later none ne all = (ne, all)
    later (some oid) ne (before, d', after, e, same, oid', all) =
        (d ∷ before, d', after, ap (◌∷◌ d) e, same, oid', (ne, all))

-- On pg_database as its page reader gives it, with a round for each page and one more, and where no row
-- of it panics: `get_database_oid` ends, with the OID of the first database of that name among those of
-- list_databases, or with `None` where none of them has it.
pub get_database_oid-Finds :
    (fs : FileSystem) (fuel : ℕ) (pages : List HeapPageData) (databases : List PgDatabase)
    (name : Bytes)
    → Stored fs 0 1262 pages
    → length pages < fuel
    → databases_in (rows_of pages) ≡ ok databases
    → (found : Option ℕ) × (get_database_oid fs fuel name ≡ some (ok found))
      × Finds name databases found
unfolding get_database_oid look_up
get_database_oid-Finds fs fuel pages databases name stored enough listed = (
  find_oid name databases,
  ap (look_up name) (list_databases-databases_in fs fuel pages stored enough ∙ ap some listed),
  find_oid-Finds name databases,
)
