-- ===== src/Types/TypeId/Layout.antt =====
-- src/types/codec.rs: `PgTypeId::type_len` and `PgTypeId::align`.
use pg_arrow.Base.{ℕ}
use pg_arrow.Types.Defs.{PgTypeId, PgTypeLen, fixed, varlena}

unfoldable pub type_len : PgTypeId → PgTypeLen
type_len PgTypeId.bool = fixed 1
type_len PgTypeId.bytea = varlena
type_len PgTypeId.char = fixed 1
type_len PgTypeId.name = fixed 64
type_len PgTypeId.int8 = fixed 8
type_len PgTypeId.int2 = fixed 2
type_len PgTypeId.int4 = fixed 4
type_len PgTypeId.text = varlena
type_len PgTypeId.oid = fixed 4
type_len PgTypeId.tid = fixed 6
type_len PgTypeId.xid = fixed 4
type_len PgTypeId.cid = fixed 4
type_len PgTypeId.json = varlena
type_len PgTypeId.xml = varlena
type_len PgTypeId.point = fixed 16
type_len PgTypeId.lseg = fixed 32
type_len PgTypeId.path = varlena
type_len PgTypeId.box = fixed 32
type_len PgTypeId.polygon = varlena
type_len PgTypeId.line = fixed 24
type_len PgTypeId.cidr = varlena
type_len PgTypeId.float4 = fixed 4
type_len PgTypeId.float8 = fixed 8
type_len PgTypeId.circle = fixed 24
type_len PgTypeId.macaddr8 = fixed 8
type_len PgTypeId.money = fixed 8
type_len PgTypeId.macaddr = fixed 6
type_len PgTypeId.inet = varlena
type_len PgTypeId.aclitem = fixed 16
type_len PgTypeId.bpchar = varlena
type_len PgTypeId.varchar = varlena
type_len PgTypeId.date = fixed 4
type_len PgTypeId.time = fixed 8
type_len PgTypeId.timestamp = fixed 8
type_len PgTypeId.timestamptz = fixed 8
type_len PgTypeId.interval = fixed 16
type_len PgTypeId.timetz = fixed 12
type_len PgTypeId.bit = varlena
type_len PgTypeId.varbit = varlena
type_len PgTypeId.numeric = varlena
type_len PgTypeId.uuid = fixed 16
type_len PgTypeId.jsonb = varlena
type_len PgTypeId.jsonpath = varlena
type_len PgTypeId.xid8 = fixed 8
type_len PgTypeId.bool_array = varlena
type_len PgTypeId.bytea_array = varlena
type_len PgTypeId.char_array = varlena
type_len PgTypeId.name_array = varlena
type_len PgTypeId.int2_array = varlena
type_len PgTypeId.int4_array = varlena
type_len PgTypeId.text_array = varlena
type_len PgTypeId.tid_array = varlena
type_len PgTypeId.xid_array = varlena
type_len PgTypeId.cid_array = varlena
type_len PgTypeId.varchar_array = varlena
type_len PgTypeId.int8_array = varlena
type_len PgTypeId.float4_array = varlena
type_len PgTypeId.float8_array = varlena
type_len PgTypeId.oid_array = varlena
type_len PgTypeId.timestamp_array = varlena
type_len PgTypeId.date_array = varlena
type_len PgTypeId.time_array = varlena
type_len PgTypeId.timestamptz_array = varlena
type_len PgTypeId.numeric_array = varlena
type_len PgTypeId.uuid_array = varlena
type_len PgTypeId.jsonb_array = varlena

unfoldable pub align : PgTypeId → ℕ
align PgTypeId.bool = 1
align PgTypeId.bytea = 4
align PgTypeId.char = 1
align PgTypeId.name = 1
align PgTypeId.int8 = 8
align PgTypeId.int2 = 2
align PgTypeId.int4 = 4
align PgTypeId.text = 4
align PgTypeId.oid = 4
align PgTypeId.tid = 2
align PgTypeId.xid = 4
align PgTypeId.cid = 4
align PgTypeId.json = 4
align PgTypeId.xml = 4
align PgTypeId.point = 8
align PgTypeId.lseg = 8
align PgTypeId.path = 8
align PgTypeId.box = 8
align PgTypeId.polygon = 8
align PgTypeId.line = 8
align PgTypeId.cidr = 4
align PgTypeId.float4 = 4
align PgTypeId.float8 = 8
align PgTypeId.circle = 8
align PgTypeId.macaddr8 = 4
align PgTypeId.money = 8
align PgTypeId.macaddr = 4
align PgTypeId.inet = 4
align PgTypeId.aclitem = 8
align PgTypeId.bpchar = 4
align PgTypeId.varchar = 4
align PgTypeId.date = 4
align PgTypeId.time = 8
align PgTypeId.timestamp = 8
align PgTypeId.timestamptz = 8
align PgTypeId.interval = 8
align PgTypeId.timetz = 8
align PgTypeId.bit = 4
align PgTypeId.varbit = 4
align PgTypeId.numeric = 4
align PgTypeId.uuid = 1
align PgTypeId.jsonb = 4
align PgTypeId.jsonpath = 4
align PgTypeId.xid8 = 8
align PgTypeId.bool_array = 4
align PgTypeId.bytea_array = 4
align PgTypeId.char_array = 4
align PgTypeId.name_array = 4
align PgTypeId.int2_array = 4
align PgTypeId.int4_array = 4
align PgTypeId.text_array = 4
align PgTypeId.tid_array = 4
align PgTypeId.xid_array = 4
align PgTypeId.cid_array = 4
align PgTypeId.varchar_array = 4
align PgTypeId.int8_array = 4
align PgTypeId.float4_array = 4
align PgTypeId.float8_array = 4
align PgTypeId.oid_array = 4
align PgTypeId.timestamp_array = 4
align PgTypeId.date_array = 4
align PgTypeId.time_array = 4
align PgTypeId.timestamptz_array = 4
align PgTypeId.numeric_array = 4
align PgTypeId.uuid_array = 4
align PgTypeId.jsonb_array = 4
