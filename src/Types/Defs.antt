-- ===== src/Types/Defs.antt =====
-- src/types/codec.rs: the enums `PgTypeId`, `PgAlign`, `PgTypeLen`, `PgTypeCategory`, `PgTypeStorage`
-- and the record `PgTypeInfo`.
use pg_arrow.Base.{ℕ, String, Bool}
use pg_arrow.Base.Int.{ℤ}

pub data PgTypeId : Type 0 where
  bool bytea char name int8 int2 int4 text oid tid xid cid json xml point lseg path : PgTypeId
  box polygon line cidr float4 float8 circle macaddr8 money macaddr inet aclitem : PgTypeId
  bpchar varchar date time timestamp timestamptz interval timetz bit varbit numeric : PgTypeId
  uuid jsonb jsonpath xid8 bool_array bytea_array char_array name_array int2_array : PgTypeId
  int4_array text_array tid_array xid_array cid_array varchar_array int8_array : PgTypeId
  float4_array float8_array oid_array timestamp_array date_array time_array : PgTypeId
  timestamptz_array numeric_array uuid_array jsonb_array : PgTypeId

pub data PgAlign : Type 0 where
  char short int double : PgAlign

pub data PgTypeLen : Type 0 where
  fixed : ℕ → PgTypeLen
  varlena : PgTypeLen
  c_string : PgTypeLen

pub data PgTypeCategory : Type 0 where
  boolean numeric string date_time timespan geometric network_address : PgTypeCategory
  bit_string user_defined array internal : PgTypeCategory

pub data PgTypeStorage : Type 0 where
  plain extended main external : PgTypeStorage

pub record PgTypeInfo : Type 0 where
  pub oid : ℕ
  pub name : String
  pub typlen : ℤ
  pub typbyval : Bool
  pub category : PgTypeCategory
  pub align : PgAlign
  pub storage : PgTypeStorage
