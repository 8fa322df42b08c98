-- ===== src/Types/Info.antt =====
-- src/types/codec.rs: `PgTypeId::info`, the static metadata of every type.
pub mod Agree
mod Tests
use pg_arrow.Base.{ℕ, String, Bool, true, false}
use pg_arrow.Base.Int.{ℤ, pos, negsuc}
use pg_arrow.Types.Defs.{PgTypeId, PgAlign, PgTypeCategory, PgTypeStorage, PgTypeInfo}
use pg_arrow.Types.TypeId.{oid}

-- One `PgTypeInfo` literal, its fields in the source's order.
abbrev row : ℕ → String → ℤ → Bool → PgTypeCategory → PgAlign → PgTypeStorage → PgTypeInfo
row o n l v c a s = record {
  oid = o;
  name = n;
  typlen = l;
  typbyval = v;
  category = c;
  align = a;
  storage = s;
}

unfoldable pub info : PgTypeId → PgTypeInfo
info PgTypeId.bool =
    row 16 "bool" (pos 1) true PgTypeCategory.boolean PgAlign.char PgTypeStorage.plain
info PgTypeId.bytea =
    row 17 "bytea" (negsuc 0) false PgTypeCategory.user_defined PgAlign.int PgTypeStorage.extended
info PgTypeId.char =
    row 18 "char" (pos 1) true PgTypeCategory.internal PgAlign.char PgTypeStorage.plain
info PgTypeId.name =
    row 19 "name" (pos 64) false PgTypeCategory.string PgAlign.char PgTypeStorage.plain
info PgTypeId.int8 =
    row 20 "int8" (pos 8) true PgTypeCategory.numeric PgAlign.double PgTypeStorage.plain
info PgTypeId.int2 =
    row 21 "int2" (pos 2) true PgTypeCategory.numeric PgAlign.short PgTypeStorage.plain
info PgTypeId.int4 =
    row 23 "int4" (pos 4) true PgTypeCategory.numeric PgAlign.int PgTypeStorage.plain
info PgTypeId.text =
    row 25 "text" (negsuc 0) false PgTypeCategory.string PgAlign.int PgTypeStorage.extended
info PgTypeId.oid = row 26 "oid" (pos 4) true PgTypeCategory.numeric PgAlign.int PgTypeStorage.plain
info PgTypeId.tid =
    row 27 "tid" (pos 6) false PgTypeCategory.user_defined PgAlign.short PgTypeStorage.plain
info PgTypeId.xid =
    row 28 "xid" (pos 4) true PgTypeCategory.user_defined PgAlign.int PgTypeStorage.plain
info PgTypeId.cid =
    row 29 "cid" (pos 4) true PgTypeCategory.user_defined PgAlign.int PgTypeStorage.plain
info PgTypeId.json =
    row 114 "json" (negsuc 0) false PgTypeCategory.user_defined PgAlign.int PgTypeStorage.extended
info PgTypeId.xml =
    row 142 "xml" (negsuc 0) false PgTypeCategory.user_defined PgAlign.int PgTypeStorage.extended
info PgTypeId.point =
    row 600 "point" (pos 16) false PgTypeCategory.geometric PgAlign.double PgTypeStorage.plain
info PgTypeId.lseg =
    row 601 "lseg" (pos 32) false PgTypeCategory.geometric PgAlign.double PgTypeStorage.plain
info PgTypeId.path =
    row 602 "path" (negsuc 0) false PgTypeCategory.geometric PgAlign.double PgTypeStorage.extended
info PgTypeId.box =
    row 603 "box" (pos 32) false PgTypeCategory.geometric PgAlign.double PgTypeStorage.plain
info PgTypeId.polygon =
    row 604 "polygon" (negsuc 0) false PgTypeCategory.geometric PgAlign.double
      PgTypeStorage.extended
info PgTypeId.line =
    row 628 "line" (pos 24) false PgTypeCategory.geometric PgAlign.double PgTypeStorage.plain
info PgTypeId.cidr =
    row 650 "cidr" (negsuc 0) false PgTypeCategory.network_address PgAlign.int PgTypeStorage.main
info PgTypeId.float4 =
    row 700 "float4" (pos 4) true PgTypeCategory.numeric PgAlign.int PgTypeStorage.plain
info PgTypeId.float8 =
    row 701 "float8" (pos 8) true PgTypeCategory.numeric PgAlign.double PgTypeStorage.plain
info PgTypeId.circle =
    row 718 "circle" (pos 24) false PgTypeCategory.geometric PgAlign.double PgTypeStorage.plain
info PgTypeId.macaddr8 =
    row 774 "macaddr8" (pos 8) false PgTypeCategory.user_defined PgAlign.int PgTypeStorage.plain
info PgTypeId.money =
    row 790 "money" (pos 8) true PgTypeCategory.numeric PgAlign.double PgTypeStorage.plain
info PgTypeId.macaddr =
    row 829 "macaddr" (pos 6) false PgTypeCategory.user_defined PgAlign.int PgTypeStorage.plain
info PgTypeId.inet =
    row 869 "inet" (negsuc 0) false PgTypeCategory.network_address PgAlign.int PgTypeStorage.main
info PgTypeId.aclitem =
    row 1033 "aclitem" (pos 16) false PgTypeCategory.user_defined PgAlign.double PgTypeStorage.plain
info PgTypeId.bpchar =
    row 1042 "bpchar" (negsuc 0) false PgTypeCategory.string PgAlign.int PgTypeStorage.extended
info PgTypeId.varchar =
    row 1043 "varchar" (negsuc 0) false PgTypeCategory.string PgAlign.int PgTypeStorage.extended
info PgTypeId.date =
    row 1082 "date" (pos 4) true PgTypeCategory.date_time PgAlign.int PgTypeStorage.plain
info PgTypeId.time =
    row 1083 "time" (pos 8) true PgTypeCategory.date_time PgAlign.double PgTypeStorage.plain
info PgTypeId.timestamp =
    row 1114 "timestamp" (pos 8) true PgTypeCategory.date_time PgAlign.double PgTypeStorage.plain
info PgTypeId.timestamptz =
    row 1184 "timestamptz" (pos 8) true PgTypeCategory.date_time PgAlign.double PgTypeStorage.plain
info PgTypeId.interval =
    row 1186 "interval" (pos 16) false PgTypeCategory.timespan PgAlign.double PgTypeStorage.plain
info PgTypeId.timetz =
    row 1266 "timetz" (pos 12) false PgTypeCategory.date_time PgAlign.double PgTypeStorage.plain
info PgTypeId.bit =
    row 1560 "bit" (negsuc 0) false PgTypeCategory.bit_string PgAlign.int PgTypeStorage.extended
info PgTypeId.varbit =
    row 1562 "varbit" (negsuc 0) false PgTypeCategory.bit_string PgAlign.int PgTypeStorage.extended
info PgTypeId.numeric =
    row 1700 "numeric" (negsuc 0) false PgTypeCategory.numeric PgAlign.int PgTypeStorage.main
info PgTypeId.uuid =
    row 2950 "uuid" (pos 16) false PgTypeCategory.user_defined PgAlign.char PgTypeStorage.plain
info PgTypeId.jsonb =
    row 3802 "jsonb" (negsuc 0) false PgTypeCategory.user_defined PgAlign.int PgTypeStorage.extended
info PgTypeId.jsonpath =
    row 4072 "jsonpath" (negsuc 0) false PgTypeCategory.user_defined PgAlign.int
      PgTypeStorage.extended
info PgTypeId.xid8 =
    row 5069 "xid8" (pos 8) true PgTypeCategory.user_defined PgAlign.double PgTypeStorage.plain
-- Array types share common metadata.
info t =
    row (oid t) "array" (negsuc 0) false PgTypeCategory.array PgAlign.int PgTypeStorage.extended
