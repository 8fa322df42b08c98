-- ===== src/Table/Reader/Select.antt =====
-- The selection of a reader: a step relation over the methods that change it.
use pg_arrow.Base.{
  ℕ, suc, ◌≡◌, ◌⊎◌, refl, ap, sym, ◌∙◌, inl, inr, Bool, true, false, Bytes, List, [], ◌∷◌, Option,
  none, some, Result, ok, err, panic, Bool-cases, ◌==◌, ◌&&◌, get_elem?,
}
use mathlib.Core.Path.{subst}
use pg_arrow.Types.Schema.{PgAttribute, bytes_eq}
use pg_arrow.Types.Catalog.Class.{PgClass}
use pg_arrow.File.Error.{PgError}
use pg_arrow.File.Reader.{FileSystem}
use pg_arrow.Table.Reader.{
  PgTableReader, is_table, find_table, schema_of, select, Changed, set_table, new_reader, then_loop,
  bootstrap_catalogs, clear_selection, set_catalogs, set_db,
}

-- An ordinary table of the catalog.
abbrev pub IsListed : List PgClass → PgClass → Type 0
IsListed classes table =
    ((i : ℕ) × (get_elem? classes i ≡ some table)) × ((table.relkind == b'r') ≡ true)

-- A table of the reader's own catalog with the schema of its attributes, or nothing.
abbrev pub IsSelected : PgTableReader → Type 0
IsSelected r =
    ((r.current_table ≡ none) × (r.current_schema ≡ none))
    ⊎ ((table : PgClass) × (r.current_table ≡ some table)
        × (r.current_schema ≡ some (schema_of r.pg_attribute_cache table))
        × IsListed r.pg_class_cache table)

and-right : (a b : Bool) → (a && b) ≡ true → b ≡ true
and-right true b h = h
and-right false b h = cc

find_table-IsListed :
    (classes : List PgClass) (name : Bytes) (table : PgClass)
    → find_table classes name ≡ some table
    → IsListed classes table
unfolding find_table is_table
find_table-IsListed [] name table h = cc
find_table-IsListed (c ∷ cs) name table h = elim (Bool-cases (is_table name c)) [
  | inl here ↦
      let e : some c ≡ some table = rw here at h in
      let same : c ≡ table = cc in
      (
        (0, e),
        ap (λ (t : PgClass). t.relkind == b'r') (sym same)
            ∙ and-right (bytes_eq c.relname name) (c.relkind == b'r') here,
      )
  | inr later ↦
      let ((i, at), kind) = find_table-IsListed cs name table (rw later at h) in ((suc i, at), kind)
]

module _ (fs : FileSystem) (fuel : ℕ) where
  -- The methods that change a reader, with any outcome.
  pub data Step (r r' : PgTableReader) : Type 0 where
    use_table :
        (name : Bytes) (outcome : Result PgError (Unit {0}))
        → set_table r name ≡ (outcome, r')
        → Step r r'
    use_db :
        (db_id : ℕ) (outcome : Result PgError (Unit {0}))
        → set_db fs fuel r db_id ≡ some (outcome, r')
        → Step r r'

  pub data Reach : PgTableReader → Type 0 where
    opened : (r : PgTableReader) (db_id : ℕ) → new_reader fs fuel db_id ≡ some (ok r) → Reach r
    after : (r r' : PgTableReader) → Reach r → Step r r' → Reach r'

  set_table-IsSelected :
      (r : PgTableReader) (name : Bytes) (found : Option PgClass)
      → find_table r.pg_class_cache name ≡ found
      → IsSelected r
      → IsSelected (set_table r name).1
  unfolding set_table select
  set_table-IsSelected r name none e h = rw (set_table, e) h
  set_table-IsSelected r name (some table) e h =
      rw (set_table, e) (inr (table, refl, refl, find_table-IsListed r.pg_class_cache name table e))

  set_catalogs-IsSelected :
      (r : PgTableReader) (db_id : ℕ) (catalogs : Result PgError (List PgClass × List PgAttribute))
      → IsSelected (set_catalogs fs fuel (clear_selection fs fuel r db_id) catalogs).1
  unfolding set_catalogs clear_selection
  set_catalogs-IsSelected r db_id (ok (classes, attributes)) = inl (refl, refl)
  set_catalogs-IsSelected r db_id (err e) = inl (refl, refl)
  set_catalogs-IsSelected r db_id panic = inl (refl, refl)

  set_db-IsSelected :
      (r r' : PgTableReader) (db_id : ℕ) (outcome : Result PgError (Unit {0}))
      (catalogs : Option (Result PgError (List PgClass × List PgAttribute)))
      → bootstrap_catalogs fs fuel db_id ≡ catalogs
      → set_db fs fuel r db_id ≡ some (outcome, r')
      → IsSelected r'
  unfolding set_db
  set_db-IsSelected r r' db_id outcome none e h =
      let bad : none ≡ some (outcome, r') = rw (set_db, e) at h in cc
  set_db-IsSelected r r' db_id outcome (some catalogs) e h =
      let left : some (set_catalogs fs fuel (clear_selection fs fuel r db_id) catalogs)
          ≡ some (outcome, r') =
        rw (set_db, e) at h in
      let same : set_catalogs fs fuel (clear_selection fs fuel r db_id) catalogs ≡ (outcome, r') =
        cc in
      subst (λ (c : Changed). IsSelected c.1) same (set_catalogs-IsSelected r db_id catalogs)

  Step-IsSelected : (r r' : PgTableReader) → Step r r' → IsSelected r → IsSelected r'
  Step-IsSelected r r' (use_table name outcome e) h =
      subst (λ (c : Changed). IsSelected c.1) e
        (set_table-IsSelected r name (find_table r.pg_class_cache name) refl h)
  Step-IsSelected r r' (use_db db_id outcome e) h =
      set_db-IsSelected r r' db_id outcome (bootstrap_catalogs fs fuel db_id) refl e

  new_reader-IsSelected :
      (r : PgTableReader) (db_id : ℕ)
      (catalogs : Option (Result PgError (List PgClass × List PgAttribute)))
      → bootstrap_catalogs fs fuel db_id ≡ catalogs
      → new_reader fs fuel db_id ≡ some (ok r)
      → IsSelected r
  unfolding new_reader then_loop
  new_reader-IsSelected r db_id none e h =
      let bad : none ≡ some (ok r) = rw (new_reader, e) at h in cc
  new_reader-IsSelected r db_id (some (ok (classes, attributes))) e h =
      let r0 : PgTableReader = record {
        db_id = db_id;
        pg_class_cache = classes;
        pg_attribute_cache = attributes;
        current_table = none;
        current_schema = none;
      } in
      let made : some (ok r0) ≡ some (ok r) = rw (new_reader, e) at h in
      let same : r0 ≡ r = cc in subst IsSelected same (inl (refl, refl))
  new_reader-IsSelected r db_id (some (err x)) e h =
      let bad : some (err x) ≡ some (ok r) = rw (new_reader, e) at h in cc
  new_reader-IsSelected r db_id (some panic) e h =
      let bad : some panic ≡ some (ok r) = rw (new_reader, e) at h in cc

  -- In every reader that `new` and any calls of `set_table` and `set_db`, successful or not, lead to,
  -- either nothing is selected, or an ordinary table of the reader's own catalog together with the schema
  -- of its attributes there.
  pub Reach-IsSelected : (r : PgTableReader) → Reach r → IsSelected r
  Reach-IsSelected _ (opened r db_id e) =
      new_reader-IsSelected r db_id (bootstrap_catalogs fs fuel db_id) refl e
  Reach-IsSelected _ (after r r' before step) =
      Step-IsSelected r r' step (Reach-IsSelected r before)
