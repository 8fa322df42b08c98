-- ===== src/Types/Schema.antt =====
-- src/types/column.rs and schema.rs: columns, schemas, and the schema built from `pg_attribute` rows.
-- src/types/pg_type.rs: the record `PgAttribute`.
pub mod Names
pub mod Split
pub mod Attributes
pub mod Projection
mod Tests
use pg_arrow.Base.{
  ℕ, suc, Bool, true, false, not, ◌&&◌, Bytes, List, [], ◌∷◌, Option, none, some, Result, ok, ◌>>=◌,
  map, length, get_elem?, unwrap, ◌==◌, ltb, leb, if◌then◌else◌,
}
use pg_arrow.Base.Sort.{sort_by}
use pg_arrow.Base.Int.{ℤ, pos, negsuc}
use pg_arrow.Types.Defs.{PgTypeId}
use pg_arrow.Types.TypeId.{try_from}

pub record PgColumn : Type 0 where
  pub name : Bytes
  pub type_id : PgTypeId
  pub nullable : Bool
  pub typmod : ℤ

pub record PgSchema : Type 0 where
  pub name : Bytes
  pub columns : List PgColumn

pub record PgAttribute : Type 0 where
  pub attrelid : ℕ
  pub attname : Bytes
  pub atttypid : ℕ
  pub attlen : ℤ
  pub attnum : ℤ
  pub atttypmod : ℤ
  pub attndims : ℤ
  pub attbyval : Bool
  pub attalign : ℕ
  pub attstorage : ℕ
  pub attcompression : ℕ
  pub attnotnull : Bool
  pub atthasdef : Bool
  pub atthasmissing : Bool
  pub attidentity : ℕ
  pub attgenerated : ℕ
  pub attisdropped : Bool
  pub attislocal : Bool
  pub attinhcount : ℤ
  pub attcollation : ℕ

-- `PgTypeId::try_from(attr.atttypid).unwrap_or(PgTypeId::Text)`
unfoldable pub type_or_text : Result ℕ PgTypeId → PgTypeId
type_or_text (ok t) = t
type_or_text _ = PgTypeId.text

-- `From<&PgAttribute> for PgColumn`
unfoldable pub from_attribute : PgAttribute → PgColumn
from_attribute a = record {
  name = a.attname;
  type_id = type_or_text (try_from a.atttypid);
  nullable = not a.attnotnull;
  typmod = a.atttypmod;
}

-- `a.attnum > 0`
unfoldable pub is_positive : ℤ → Bool
is_positive (pos n) = ltb 0 n
is_positive (negsuc n) = false

-- `a <= b` on integers.
unfoldable pub leb_ℤ : ℤ → ℤ → Bool
leb_ℤ (pos a) (pos b) = leb a b
leb_ℤ (pos a) (negsuc b) = false
leb_ℤ (negsuc a) (pos b) = true
leb_ℤ (negsuc a) (negsuc b) = leb b a

-- `!a.attisdropped && a.attnum > 0`
unfoldable pub is_user_attr : PgAttribute → Bool
unfolding is_positive
is_user_attr a = not a.attisdropped && is_positive a.attnum

unfoldable pub user_attrs : List PgAttribute → List PgAttribute
user_attrs [] = []
user_attrs (a ∷ attrs) = let rest = user_attrs attrs in if is_user_attr a then a ∷ rest else rest

-- `a.attnum <= b.attnum`
abbrev pub by_attnum : PgAttribute → PgAttribute → Bool
by_attnum a b = leb_ℤ a.attnum b.attnum

-- `user_attrs.sort_by_key(|a| a.attnum)`
unfoldable pub sort_by_attnum : List PgAttribute → List PgAttribute
sort_by_attnum = sort_by by_attnum

-- `PgSchema::from_attributes`
unfoldable pub from_attributes : Bytes → List PgAttribute → PgSchema
from_attributes name attrs = record {
  name = name;
  columns = map from_attribute (sort_by_attnum (user_attrs attrs));
}

unfoldable pub num_columns : PgSchema → ℕ
num_columns s = length s.columns

unfoldable pub column : PgSchema → ℕ → Option PgColumn
column s i = get_elem? s.columns i

unfoldable pub bytes_eq : Bytes → Bytes → Bool
bytes_eq [] [] = true
bytes_eq (a ∷ front) (b ∷ back) = a == b && bytes_eq front back
bytes_eq _ _ = false

-- `iter().enumerate().find(|(_, c)| c.name == name)`, counting from `i`.
unfoldable pub find_column : ℕ → List PgColumn → Bytes → Option (ℕ × PgColumn)
find_column i [] name = none
find_column i (c ∷ cs) name =
    let later = find_column (suc i) cs name in if bytes_eq c.name name then some (i, c) else later

-- `PgSchema::project`: it panics on an index out of range.
unfoldable pub project_columns : {E : Type 0} → List PgColumn → List ℕ → Result E (List PgColumn)
project_columns columns [] = ok []
project_columns columns (i ∷ indices) = do
  c ← unwrap (get_elem? columns i)
  cs ← project_columns columns indices
  ok (c ∷ cs)

unfoldable pub project : {E : Type 0} → PgSchema → List ℕ → Result E PgSchema
project s indices = do
  columns ← project_columns s.columns indices
  ok (record { name = s.name; columns = columns })
