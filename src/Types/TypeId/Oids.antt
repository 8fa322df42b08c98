-- ===== src/Types/TypeId/Oids.antt =====
-- src/types/codec.rs: `PgTypeId::oid` and `TryFrom<u32>`.
use pg_arrow.Base.{ℕ, List, [], ◌∷◌, Result, ok, err, ◌==◌, if◌then◌else◌}
use pg_arrow.Types.Defs.{PgTypeId}

-- `self as u32`: the discriminant.
unfoldable pub oid : PgTypeId → ℕ
oid PgTypeId.bool = 16
oid PgTypeId.bytea = 17
oid PgTypeId.char = 18
oid PgTypeId.name = 19
oid PgTypeId.int8 = 20
oid PgTypeId.int2 = 21
oid PgTypeId.int4 = 23
oid PgTypeId.text = 25
oid PgTypeId.oid = 26
oid PgTypeId.tid = 27
oid PgTypeId.xid = 28
oid PgTypeId.cid = 29
oid PgTypeId.json = 114
oid PgTypeId.xml = 142
oid PgTypeId.point = 600
oid PgTypeId.lseg = 601
oid PgTypeId.path = 602
oid PgTypeId.box = 603
oid PgTypeId.polygon = 604
oid PgTypeId.line = 628
oid PgTypeId.cidr = 650
oid PgTypeId.float4 = 700
oid PgTypeId.float8 = 701
oid PgTypeId.circle = 718
oid PgTypeId.macaddr8 = 774
oid PgTypeId.money = 790
oid PgTypeId.macaddr = 829
oid PgTypeId.inet = 869
oid PgTypeId.aclitem = 1033
oid PgTypeId.bpchar = 1042
oid PgTypeId.varchar = 1043
oid PgTypeId.date = 1082
oid PgTypeId.time = 1083
oid PgTypeId.timestamp = 1114
oid PgTypeId.timestamptz = 1184
oid PgTypeId.interval = 1186
oid PgTypeId.timetz = 1266
oid PgTypeId.bit = 1560
oid PgTypeId.varbit = 1562
oid PgTypeId.numeric = 1700
oid PgTypeId.uuid = 2950
oid PgTypeId.jsonb = 3802
oid PgTypeId.jsonpath = 4072
oid PgTypeId.xid8 = 5069
oid PgTypeId.bool_array = 1000
oid PgTypeId.bytea_array = 1001
oid PgTypeId.char_array = 1002
oid PgTypeId.name_array = 1003
oid PgTypeId.int2_array = 1005
oid PgTypeId.int4_array = 1007
oid PgTypeId.text_array = 1009
oid PgTypeId.tid_array = 1010
oid PgTypeId.xid_array = 1011
oid PgTypeId.cid_array = 1012
oid PgTypeId.varchar_array = 1015
oid PgTypeId.int8_array = 1016
oid PgTypeId.float4_array = 1021
oid PgTypeId.float8_array = 1022
oid PgTypeId.oid_array = 1028
oid PgTypeId.timestamp_array = 1115
oid PgTypeId.date_array = 1182
oid PgTypeId.time_array = 1183
oid PgTypeId.timestamptz_array = 1185
oid PgTypeId.numeric_array = 1231
oid PgTypeId.uuid_array = 2951
oid PgTypeId.jsonb_array = 3807

-- The arms of the match in `try_from`, in order.
unfoldable pub known : List (ℕ × PgTypeId)
known =
    (16, PgTypeId.bool)
    ∷ (17, PgTypeId.bytea)
    ∷ (18, PgTypeId.char)
    ∷ (19, PgTypeId.name)
    ∷ (20, PgTypeId.int8)
    ∷ (21, PgTypeId.int2)
    ∷ (23, PgTypeId.int4)
    ∷ (25, PgTypeId.text)
    ∷ (26, PgTypeId.oid)
    ∷ (27, PgTypeId.tid)
    ∷ (28, PgTypeId.xid)
    ∷ (29, PgTypeId.cid)
    ∷ (114, PgTypeId.json)
    ∷ (142, PgTypeId.xml)
    ∷ (600, PgTypeId.point)
    ∷ (601, PgTypeId.lseg)
    ∷ (602, PgTypeId.path)
    ∷ (603, PgTypeId.box)
    ∷ (604, PgTypeId.polygon)
    ∷ (628, PgTypeId.line)
    ∷ (650, PgTypeId.cidr)
    ∷ (700, PgTypeId.float4)
    ∷ (701, PgTypeId.float8)
    ∷ (718, PgTypeId.circle)
    ∷ (774, PgTypeId.macaddr8)
    ∷ (790, PgTypeId.money)
    ∷ (829, PgTypeId.macaddr)
    ∷ (869, PgTypeId.inet)
    ∷ (1033, PgTypeId.aclitem)
    ∷ (1042, PgTypeId.bpchar)
    ∷ (1043, PgTypeId.varchar)
    ∷ (1082, PgTypeId.date)
    ∷ (1083, PgTypeId.time)
    ∷ (1114, PgTypeId.timestamp)
    ∷ (1184, PgTypeId.timestamptz)
    ∷ (1186, PgTypeId.interval)
    ∷ (1266, PgTypeId.timetz)
    ∷ (1560, PgTypeId.bit)
    ∷ (1562, PgTypeId.varbit)
    ∷ (1700, PgTypeId.numeric)
    ∷ (2950, PgTypeId.uuid)
    ∷ (3802, PgTypeId.jsonb)
    ∷ (4072, PgTypeId.jsonpath)
    ∷ (5069, PgTypeId.xid8)
    ∷ (1000, PgTypeId.bool_array)
    ∷ (1001, PgTypeId.bytea_array)
    ∷ (1002, PgTypeId.char_array)
    ∷ (1003, PgTypeId.name_array)
    ∷ (1005, PgTypeId.int2_array)
    ∷ (1007, PgTypeId.int4_array)
    ∷ (1009, PgTypeId.text_array)
    ∷ (1010, PgTypeId.tid_array)
    ∷ (1011, PgTypeId.xid_array)
    ∷ (1012, PgTypeId.cid_array)
    ∷ (1015, PgTypeId.varchar_array)
    ∷ (1016, PgTypeId.int8_array)
    ∷ (1021, PgTypeId.float4_array)
    ∷ (1022, PgTypeId.float8_array)
    ∷ (1028, PgTypeId.oid_array)
    ∷ (1115, PgTypeId.timestamp_array)
    ∷ (1182, PgTypeId.date_array)
    ∷ (1183, PgTypeId.time_array)
    ∷ (1185, PgTypeId.timestamptz_array)
    ∷ (1231, PgTypeId.numeric_array)
    ∷ (2951, PgTypeId.uuid_array)
    ∷ (3807, PgTypeId.jsonb_array)
    ∷ []

-- The first arm that fits.
unfoldable pub match_oid : List (ℕ × PgTypeId) → ℕ → Result ℕ PgTypeId
match_oid [] other = err other
match_oid ((n, t) ∷ arms) other = if n == other then ok t else match_oid arms other

unfoldable pub try_from : ℕ → Result ℕ PgTypeId
unfolding match_oid known
try_from = match_oid known
