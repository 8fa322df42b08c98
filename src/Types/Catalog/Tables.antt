-- ===== src/Types/Catalog/Tables.antt =====
-- src/types/pg_type.rs: the five relations that implement `PgCatalogRelation`.
use pg_arrow.Base.{[], ◌∷◌}
use pg_arrow.Types.Defs.{PgTypeId}
use pg_arrow.Types.Catalog.Relation.{CatalogRelation}

unfoldable pub pg_class : CatalogRelation
pg_class = record {
  relation_oid = 1259;
  num_fixed_attrs = 31;
  attr_types =
      PgTypeId.oid ∷ PgTypeId.name ∷ PgTypeId.oid ∷ PgTypeId.oid ∷ PgTypeId.oid ∷ PgTypeId.oid
      ∷ PgTypeId.oid ∷ PgTypeId.oid ∷ PgTypeId.oid ∷ PgTypeId.int4 ∷ PgTypeId.float4 ∷ PgTypeId.int4
      ∷ PgTypeId.int4 ∷ PgTypeId.oid ∷ PgTypeId.bool ∷ PgTypeId.bool ∷ PgTypeId.char ∷ PgTypeId.char
      ∷ PgTypeId.int2 ∷ PgTypeId.int2 ∷ PgTypeId.bool ∷ PgTypeId.bool ∷ PgTypeId.bool
      ∷ PgTypeId.bool ∷ PgTypeId.bool ∷ PgTypeId.bool ∷ PgTypeId.char ∷ PgTypeId.bool ∷ PgTypeId.oid
      ∷ PgTypeId.xid ∷ PgTypeId.xid ∷ [];
  attr_names =
      "oid" ∷ "relname" ∷ "relnamespace" ∷ "reltype" ∷ "reloftype" ∷ "relowner" ∷ "relam"
      ∷ "relfilenode" ∷ "reltablespace" ∷ "relpages" ∷ "reltuples" ∷ "relallvisible"
      ∷ "relallfrozen" ∷ "reltoastrelid" ∷ "relhasindex" ∷ "relisshared" ∷ "relpersistence"
      ∷ "relkind" ∷ "relnatts" ∷ "relchecks" ∷ "relhasrules" ∷ "relhastriggers" ∷ "relhassubclass"
      ∷ "relrowsecurity" ∷ "relforcerowsecurity" ∷ "relispopulated" ∷ "relreplident"
      ∷ "relispartition" ∷ "relrewrite" ∷ "relfrozenxid" ∷ "relminmxid" ∷ [];
  catalog_name = "pg_class";
}

unfoldable pub pg_type : CatalogRelation
pg_type = record {
  relation_oid = 1247;
  num_fixed_attrs = 29;
  attr_types =
      PgTypeId.oid ∷ PgTypeId.name ∷ PgTypeId.oid ∷ PgTypeId.oid ∷ PgTypeId.int2 ∷ PgTypeId.bool
      ∷ PgTypeId.char ∷ PgTypeId.char ∷ PgTypeId.bool ∷ PgTypeId.bool ∷ PgTypeId.char ∷ PgTypeId.oid
      ∷ PgTypeId.oid ∷ PgTypeId.oid ∷ PgTypeId.oid ∷ PgTypeId.oid ∷ PgTypeId.oid ∷ PgTypeId.oid
      ∷ PgTypeId.oid ∷ PgTypeId.oid ∷ PgTypeId.oid ∷ PgTypeId.oid ∷ PgTypeId.char ∷ PgTypeId.char
      ∷ PgTypeId.bool ∷ PgTypeId.oid ∷ PgTypeId.int4 ∷ PgTypeId.int4 ∷ PgTypeId.oid ∷ [];
  attr_names =
      "oid" ∷ "typname" ∷ "typnamespace" ∷ "typowner" ∷ "typlen" ∷ "typbyval" ∷ "typtype"
      ∷ "typcategory" ∷ "typispreferred" ∷ "typisdefined" ∷ "typdelim" ∷ "typrelid" ∷ "typsubscript"
      ∷ "typelem" ∷ "typarray" ∷ "typinput" ∷ "typoutput" ∷ "typreceive" ∷ "typsend" ∷ "typmodin"
      ∷ "typmodout" ∷ "typanalyze" ∷ "typalign" ∷ "typstorage" ∷ "typnotnull" ∷ "typbasetype"
      ∷ "typtypmod" ∷ "typndims" ∷ "typcollation" ∷ [];
  catalog_name = "pg_type";
}

unfoldable pub pg_attribute : CatalogRelation
pg_attribute = record {
  relation_oid = 1249;
  num_fixed_attrs = 20;
  attr_types =
      PgTypeId.oid ∷ PgTypeId.name ∷ PgTypeId.oid ∷ PgTypeId.int2 ∷ PgTypeId.int2 ∷ PgTypeId.int4
      ∷ PgTypeId.int2 ∷ PgTypeId.bool ∷ PgTypeId.char ∷ PgTypeId.char ∷ PgTypeId.char
      ∷ PgTypeId.bool ∷ PgTypeId.bool ∷ PgTypeId.bool ∷ PgTypeId.char ∷ PgTypeId.char
      ∷ PgTypeId.bool ∷ PgTypeId.bool ∷ PgTypeId.int2 ∷ PgTypeId.oid ∷ [];
  attr_names =
      "attrelid" ∷ "attname" ∷ "atttypid" ∷ "attlen" ∷ "attnum" ∷ "atttypmod" ∷ "attndims"
      ∷ "attbyval" ∷ "attalign" ∷ "attstorage" ∷ "attcompression" ∷ "attnotnull" ∷ "atthasdef"
      ∷ "atthasmissing" ∷ "attidentity" ∷ "attgenerated" ∷ "attisdropped" ∷ "attislocal"
      ∷ "attinhcount" ∷ "attcollation" ∷ [];
  catalog_name = "pg_attribute";
}

unfoldable pub pg_proc : CatalogRelation
pg_proc = record {
  relation_oid = 1255;
  num_fixed_attrs = 20;
  attr_types =
      PgTypeId.oid ∷ PgTypeId.name ∷ PgTypeId.oid ∷ PgTypeId.oid ∷ PgTypeId.oid ∷ PgTypeId.float4
      ∷ PgTypeId.float4 ∷ PgTypeId.oid ∷ PgTypeId.oid ∷ PgTypeId.char ∷ PgTypeId.bool
      ∷ PgTypeId.bool ∷ PgTypeId.bool ∷ PgTypeId.bool ∷ PgTypeId.char ∷ PgTypeId.char
      ∷ PgTypeId.int2 ∷ PgTypeId.int2 ∷ PgTypeId.oid ∷ PgTypeId.oid ∷ [];
  attr_names =
      "oid" ∷ "proname" ∷ "pronamespace" ∷ "proowner" ∷ "prolang" ∷ "procost" ∷ "prorows"
      ∷ "provariadic" ∷ "prosupport" ∷ "prokind" ∷ "prosecdef" ∷ "proleakproof" ∷ "proisstrict"
      ∷ "proretset" ∷ "provolatile" ∷ "proparallel" ∷ "pronargs" ∷ "pronargdefaults" ∷ "prorettype"
      ∷ "proargtypes" ∷ [];
  catalog_name = "pg_proc";
}

unfoldable pub pg_database : CatalogRelation
pg_database = record {
  relation_oid = 1262;
  num_fixed_attrs = 2;
  attr_types = PgTypeId.oid ∷ PgTypeId.name ∷ [];
  attr_names = "oid" ∷ "datname" ∷ [];
  catalog_name = "pg_database";
}
