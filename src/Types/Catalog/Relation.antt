-- ===== src/Types/Catalog/Relation.antt =====
-- src/types/catalog.rs: the trait `PgCatalogRelation`, as the record of what an implementation gives.
use Prim.Native.Char.{code}
use pg_arrow.Base.{ℕ, String, Bytes, true, List, [], ◌∷◌}
use pg_arrow.Base.Int.{negsuc}
use pg_arrow.Types.Defs.{PgTypeId}
use pg_arrow.Types.Schema.{PgColumn, PgSchema}

pub record CatalogRelation : Type 0 where
  pub relation_oid : ℕ
  pub num_fixed_attrs : ℕ
  pub attr_types : List PgTypeId
  pub attr_names : List String
  pub catalog_name : String

-- The bytes of an ASCII text.
abbrev pub codes : String → Bytes
codes String.[] = []
codes (String.◌∷◌ c s) = code c ∷ codes s

-- `attr_names.iter().zip(attr_types.iter()).map(...)`
unfoldable pub catalog_columns : List String → List PgTypeId → List PgColumn
catalog_columns [] types = []
catalog_columns (name ∷ names) [] = []
catalog_columns (name ∷ names) (type_id ∷ types) =
    record { name = codes name; type_id = type_id; nullable = true; typmod = negsuc 0 }
    ∷ catalog_columns names types

-- `PgCatalogRelation::catalog_schema`
unfoldable pub catalog_schema : CatalogRelation → PgSchema
catalog_schema relation = record {
  name = codes relation.catalog_name;
  columns = catalog_columns relation.attr_names relation.attr_types;
}
