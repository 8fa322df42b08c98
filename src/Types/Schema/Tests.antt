-- ===== src/Types/Schema/Tests.antt =====
-- The theorems on schemas: at four attributes out of order, and at the
-- projection of a projection.
use pg_arrow.Types.Defs.{PgTypeId}
use pg_arrow.File.Error.{PgError}
use pg_arrow.Types.Schema.Projection.{index_at, project-compose}
use pg_arrow.Base.{refl, ok, ℕ, ◌≡◌, true, false, List, [], ◌∷◌, map}
use pg_arrow.Base.Int.{ℤ, pos, negsuc}
use pg_arrow.Types.Schema.Attributes.{IsUser, IsSchema, from_attributes-IsSchema}
use pg_arrow.Types.Schema.{
  PgColumn, PgSchema, project_columns, project, PgAttribute, from_attributes,
}

abbrev attribute : ℕ → ℤ → PgAttribute
attribute type_oid number = record {
  attrelid = 16384;
  attname = 97 ∷ [];
  atttypid = type_oid;
  attlen = pos 4;
  attnum = number;
  atttypmod = negsuc 0;
  attndims = pos 0;
  attbyval = true;
  attalign = 105;
  attstorage = 112;
  attcompression = 0;
  attnotnull = false;
  atthasdef = false;
  atthasmissing = false;
  attidentity = 0;
  attgenerated = 0;
  attisdropped = false;
  attislocal = true;
  attinhcount = pos 0;
  attcollation = 0;
}

-- One of the system's, one that is dropped, and one of an OID of no type.
abbrev attributes : List PgAttribute
attributes =
    attribute 15 (pos 2)
    ∷ attribute 26 (negsuc 0)
    ∷ record (attribute 23 (pos 3)) { attisdropped = true }
    ∷ attribute 23 (pos 1)
    ∷ []

from_attributes-IsSchema_example :
    IsSchema IsUser (116 ∷ []) attributes (from_attributes (116 ∷ []) attributes)
from_attributes-IsSchema_example = from_attributes-IsSchema (116 ∷ []) attributes

abbrev one_column : ℕ → PgColumn
one_column letter = record {
  name = letter ∷ [];
  type_id = PgTypeId.int4;
  nullable = true;
  typmod = negsuc 0;
}

abbrev schema_of : List PgColumn → PgSchema
schema_of columns = record { name = []; columns = columns }

project-compose_example :
    project {E = PgError}
      (schema_of (one_column 97 ∷ one_column 98 ∷ one_column 99 ∷ []))
      (map (index_at (2 ∷ 0 ∷ [])) (1 ∷ []))
    ≡ ok (schema_of (one_column 97 ∷ []))
project-compose_example =
    project-compose {E = PgError} (schema_of (one_column 97 ∷ one_column 98 ∷ one_column 99 ∷ []))
      (schema_of (one_column 99 ∷ one_column 97 ∷ [])) (schema_of (one_column 97 ∷ [])) (2 ∷ 0 ∷ [])
      (1 ∷ []) (unfold project project_columns in refl) (unfold project project_columns in refl)
