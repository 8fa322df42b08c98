-- ===== src/Types/Fixed.antt =====
-- src/types/codec.rs: `check_len` and `decode_fixed`.
pub mod RoundTrip
use pg_arrow.Base.{
  ℕ, ◌^◌, not, Bytes, String, Result, ok, err, ◌>>=◌, ltb, ◌==◌, if◌then◌else◌, length, unwrap,
  slice, read_word,
}
use pg_arrow.Base.Int.{signed}
use pg_arrow.Types.Defs.{PgTypeId}
use pg_arrow.Types.TypeId.{oid}
use pg_arrow.Types.Datum.{
  PgDatum, DecodeError, buffer_too_short, index, from_bytes_until_nul, from_utf8, or_panic,
}

abbrev Decoded : Type 0 → Type 0
Decoded A = Result DecodeError A

infixl 5 ◌>>◌
abbrev ◌>>◌ : {B : Type 0} → Decoded (Unit {0}) → Decoded B → Decoded B
m >> k = m >>= λ _. k

unfoldable pub check_len : String → ℕ → ℕ → Result DecodeError (Unit {0})
check_len type_name expected actual =
    if ltb actual expected then err (buffer_too_short type_name expected actual) else ok tt

-- `uN::from_ne_bytes(bytes[a..a + N / 8].try_into().unwrap())` and the signed forms.
abbrev u16_at : Bytes → ℕ → Decoded ℕ
u16_at = read_word 2

abbrev u32_at : Bytes → ℕ → Decoded ℕ
u32_at = read_word 4

abbrev u64_at : Bytes → ℕ → Decoded ℕ
u64_at = read_word 8

unfoldable pub decode_fixed : PgTypeId → Bytes → Result DecodeError PgDatum
unfolding check_len
decode_fixed PgTypeId.bool bytes = do
  check_len "bool" 1 (length bytes)
  b ← index bytes 0
  ok (PgDatum.bool (not (b == 0)))
decode_fixed PgTypeId.char bytes = do
  check_len "char" 1 (length bytes)
  b ← index bytes 0
  ok (PgDatum.char b)
decode_fixed PgTypeId.int2 bytes = do
  check_len "int2" 2 (length bytes)
  w ← u16_at bytes 0
  ok (PgDatum.int2 (signed (2 ^ 15) w))
decode_fixed PgTypeId.int4 bytes = do
  check_len "int4" 4 (length bytes)
  w ← u32_at bytes 0
  ok (PgDatum.int4 (signed (2 ^ 31) w))
decode_fixed PgTypeId.oid bytes = do
  check_len "oid" 4 (length bytes)
  w ← u32_at bytes 0
  ok (PgDatum.oid w)
decode_fixed PgTypeId.xid bytes = do
  check_len "xid" 4 (length bytes)
  w ← u32_at bytes 0
  ok (PgDatum.xid w)
decode_fixed PgTypeId.cid bytes = do
  check_len "cid" 4 (length bytes)
  w ← u32_at bytes 0
  ok (PgDatum.cid w)
decode_fixed PgTypeId.float4 bytes = do
  check_len "float4" 4 (length bytes)
  w ← u32_at bytes 0
  ok (PgDatum.float4 w)
decode_fixed PgTypeId.date bytes = do
  check_len "date" 4 (length bytes)
  w ← u32_at bytes 0
  ok (PgDatum.date (signed (2 ^ 31) w))
decode_fixed PgTypeId.int8 bytes = do
  check_len "int8" 8 (length bytes)
  w ← u64_at bytes 0
  ok (PgDatum.int8 (signed (2 ^ 63) w))
decode_fixed PgTypeId.float8 bytes = do
  check_len "float8" 8 (length bytes)
  w ← u64_at bytes 0
  ok (PgDatum.float8 w)
decode_fixed PgTypeId.money bytes = do
  check_len "money" 8 (length bytes)
  w ← u64_at bytes 0
  ok (PgDatum.money (signed (2 ^ 63) w))
decode_fixed PgTypeId.time bytes = do
  check_len "time" 8 (length bytes)
  w ← u64_at bytes 0
  ok (PgDatum.time (signed (2 ^ 63) w))
decode_fixed PgTypeId.timestamp bytes = do
  check_len "timestamp" 8 (length bytes)
  w ← u64_at bytes 0
  ok (PgDatum.timestamp (signed (2 ^ 63) w))
decode_fixed PgTypeId.timestamptz bytes = do
  check_len "timestamptz" 8 (length bytes)
  w ← u64_at bytes 0
  ok (PgDatum.timestamp_tz (signed (2 ^ 63) w))
decode_fixed PgTypeId.xid8 bytes = do
  check_len "xid8" 8 (length bytes)
  w ← u64_at bytes 0
  ok (PgDatum.xid8 w)
decode_fixed PgTypeId.macaddr8 bytes = do
  check_len "macaddr8" 8 (length bytes)
  buf ← slice bytes 0 8
  ok (PgDatum.mac_addr8 buf)
decode_fixed PgTypeId.tid bytes = do
  check_len "tid" 6 (length bytes)
  block ← u32_at bytes 0
  offset ← u16_at bytes 4
  ok (PgDatum.tid block offset)
decode_fixed PgTypeId.macaddr bytes = do
  check_len "macaddr" 6 (length bytes)
  buf ← slice bytes 0 6
  ok (PgDatum.mac_addr buf)
decode_fixed PgTypeId.timetz bytes = do
  check_len "timetz" 12 (length bytes)
  time_usec ← u64_at bytes 0
  tz_offset ← u32_at bytes 8
  ok (PgDatum.time_tz (signed (2 ^ 63) time_usec) (signed (2 ^ 31) tz_offset))
decode_fixed PgTypeId.interval bytes = do
  check_len "interval" 16 (length bytes)
  microseconds ← u64_at bytes 0
  days ← u32_at bytes 8
  months ← u32_at bytes 12
  ok (
      PgDatum.interval (signed (2 ^ 63) microseconds) (signed (2 ^ 31) days)
        (signed (2 ^ 31) months))
decode_fixed PgTypeId.point bytes = do
  check_len "point" 16 (length bytes)
  x ← u64_at bytes 0
  y ← u64_at bytes 8
  ok (PgDatum.point x y)
decode_fixed PgTypeId.uuid bytes = do
  check_len "uuid" 16 (length bytes)
  buf ← slice bytes 0 16
  ok (PgDatum.uuid buf)
decode_fixed PgTypeId.aclitem bytes = do
  check_len "aclitem" 16 (length bytes)
  buf ← slice bytes 0 16
  ok (PgDatum.raw_bytes (oid PgTypeId.aclitem) buf)
decode_fixed PgTypeId.line bytes = do
  check_len "line" 24 (length bytes)
  a ← u64_at bytes 0
  b ← u64_at bytes 8
  c ← u64_at bytes 16
  ok (PgDatum.line a b c)
decode_fixed PgTypeId.circle bytes = do
  check_len "circle" 24 (length bytes)
  x ← u64_at bytes 0
  y ← u64_at bytes 8
  radius ← u64_at bytes 16
  ok (PgDatum.circle x y radius)
decode_fixed PgTypeId.lseg bytes = do
  check_len "lseg" 32 (length bytes)
  x1 ← u64_at bytes 0
  y1 ← u64_at bytes 8
  x2 ← u64_at bytes 16
  y2 ← u64_at bytes 24
  ok (PgDatum.lseg x1 y1 x2 y2)
decode_fixed PgTypeId.box bytes = do
  check_len "box" 32 (length bytes)
  x1 ← u64_at bytes 0
  y1 ← u64_at bytes 8
  x2 ← u64_at bytes 16
  y2 ← u64_at bytes 24
  ok (PgDatum.box x1 y1 x2 y2)
decode_fixed PgTypeId.name bytes = do
  check_len "name" 64 (length bytes)
  buf ← slice bytes 0 64
  column ← unwrap (from_bytes_until_nul buf)
  s ← or_panic (from_utf8 column)
  ok (PgDatum.text s)
decode_fixed t bytes = ok (PgDatum.raw_bytes (oid t) bytes)
