-- ===== src/Table/Reader/Tables.antt =====
-- The table that a name selects, and its schema.
use mathlib.Core.List.Perm
use pg_arrow.Base.{
  ◌≡◌, refl, inl, inr, true, Bool-cases, Bytes, List, [], ◌∷◌, ◌++◌, All, some, ◌==◌, ==_iff,
}
use pg_arrow.Types.Schema.{PgAttribute, bytes_eq}
use pg_arrow.Types.Schema.Names.{and-true, bytes_eq-same, bytes_eq_self}
use pg_arrow.Types.Schema.Split.{Split, keep-Split, leave-Split}
use pg_arrow.Types.Schema.Attributes.{IsUser, IsSchema, from_attributes-within}
use pg_arrow.Types.Catalog.Class.{PgClass}
use pg_arrow.Table.Reader.{is_table, find_table, attributes_of, schema_of}

-- An ordinary table of this name.
abbrev pub IsTable : Bytes → PgClass → Type 0
IsTable name c = (c.relname ≡ name) × (c.relkind ≡ b'r')

is_table-IsTable : (name : Bytes) (c : PgClass) → is_table name c ≡ true → IsTable name c
unfolding is_table
is_table-IsTable name c h =
    let (named, ordinary) = and-true (bytes_eq c.relname name) (c.relkind == b'r') h in
    (bytes_eq-same c.relname name named, (==_iff c.relkind b'r').0 ordinary)

IsTable-is_table : (name : Bytes) (c : PgClass) → IsTable name c → is_table name c ≡ true
unfolding is_table
IsTable-is_table name c (named, ordinary) = rw (named, ordinary, bytes_eq_self name) refl

-- The first of them is found.
pub find_table-first :
    (name : Bytes) (before : List PgClass) (table : PgClass) (after : List PgClass)
    → IsTable name table
    → All (λ c. ¬ IsTable name c) before
    → find_table (before ++ (table ∷ after)) name ≡ some table
unfolding find_table
find_table-first name [] table after h none_before = rw (IsTable-is_table name table h) refl
find_table-first name (c ∷ before) table after h (fails, none_before) =
    elim (Bool-cases (is_table name c)) [
      | inl here ↦ absurd (fails (is_table-IsTable name c here))
      | inr other ↦ rw other (find_table-first name before table after h none_before)
    ]

module _ (table : PgClass) where
  abbrev IsOwn : PgAttribute → Type 0
  IsOwn a = a.attrelid ≡ table.oid

  attributes_of-Split :
      (attrs : List PgAttribute)
      → All IsOwn (attributes_of attrs table.oid)
        × Split IsOwn (attributes_of attrs table.oid) attrs
  unfolding attributes_of
  attributes_of-Split [] = (tt, ([], tt, Perm.refl []))
  attributes_of-Split (a ∷ attrs) =
      let (all, split) = attributes_of-Split attrs in
      elim (Bool-cases (a.attrelid == table.oid)) [
        | inl own ↦ rw own (
          ((==_iff a.attrelid table.oid).0 own, all),
          keep-Split IsOwn a (attributes_of attrs table.oid) attrs split,
        )
        | inr other ↦ rw other (
          all,
          leave-Split IsOwn a (attributes_of attrs table.oid) attrs
              (λ e.
                let yes : (a.attrelid == table.oid) ≡ true = (==_iff a.attrelid table.oid).1 e in
                cc)
              split,
        )
      ]

  -- A user attribute of the table.
  abbrev pub IsColumnOf : PgAttribute → Type 0
  IsColumnOf a = (a.attrelid ≡ table.oid) × IsUser a

  pub schema_of-IsSchema :
      (attrs : List PgAttribute) → IsSchema IsColumnOf table.relname attrs (schema_of attrs table)
  unfolding schema_of
  schema_of-IsSchema attrs =
      let (all, split) = attributes_of-Split attrs in
      from_attributes-within IsOwn table.relname (attributes_of attrs table.oid) attrs all split
