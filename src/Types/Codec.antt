-- ===== src/Types/Codec.antt =====
-- src/types/codec.rs: `decode_varlena`, `read_varlena_header`, `decode_datum` and `skip_datum`.
pub mod Header
pub mod RoundTrip
pub mod Total
pub mod Panic
pub mod Skip
pub mod NotNull
mod Tests
use pg_arrow.Base.{
  ℕ, ◌+◌, ◌-◌, ◌/◌, ◌^◌, Bool, not, Bytes, Option, none, some, Result, ok, err, ◌>>=◌, ltb, ◌==◌,
  leb, if◌then◌else◌, length, drop, get_elem?, get_range, ok_or, unwrap, map_err, read_word,
  bit_and, String, panic, suc,
}
use pg_arrow.Types.Defs.{PgTypeId, PgTypeLen}
use pg_arrow.Types.TypeId.{oid, type_len}
use pg_arrow.Types.Info.{info}
use pg_arrow.Types.Fixed.{decode_fixed}
use pg_arrow.Types.Datum.{
  PgDatum, DecodeError, buffer_too_short, invalid_utf8, invalid_varlena_header,
  missing_nul_terminator, nul_position, from_bytes_until_nul, from_utf8,
}

-- `std::str::from_utf8(raw_payload).map_err(...)?`
abbrev checked_text : String → Bytes → Result DecodeError Bytes
checked_text type_name payload = map_err (invalid_utf8 type_name) (from_utf8 payload)

unfoldable pub decode_varlena : PgTypeId → Bytes → Result DecodeError PgDatum
decode_varlena PgTypeId.text raw_payload = do
  s ← checked_text "text" raw_payload
  ok (PgDatum.text s)
decode_varlena PgTypeId.varchar raw_payload = do
  s ← checked_text "varchar" raw_payload
  ok (PgDatum.varchar s)
decode_varlena PgTypeId.bpchar raw_payload = do
  s ← checked_text "bpchar" raw_payload
  ok (PgDatum.bp_char s)
decode_varlena PgTypeId.json raw_payload = do
  s ← checked_text "json" raw_payload
  ok (PgDatum.json s)
decode_varlena PgTypeId.xml raw_payload = do s ← checked_text "xml" raw_payload; ok (PgDatum.xml s)
decode_varlena PgTypeId.bytea raw_payload = ok (PgDatum.bytea raw_payload)
decode_varlena PgTypeId.jsonb raw_payload = ok (PgDatum.jsonb raw_payload)
decode_varlena PgTypeId.jsonpath raw_payload = ok (PgDatum.json_path raw_payload)
decode_varlena PgTypeId.numeric raw_payload = ok (PgDatum.numeric raw_payload)
decode_varlena PgTypeId.inet raw_payload = ok (PgDatum.inet raw_payload)
decode_varlena PgTypeId.cidr raw_payload = ok (PgDatum.cidr raw_payload)
decode_varlena PgTypeId.bit raw_payload = ok (PgDatum.bit raw_payload)
decode_varlena PgTypeId.varbit raw_payload = ok (PgDatum.var_bit raw_payload)
decode_varlena PgTypeId.path raw_payload = ok (PgDatum.path raw_payload)
decode_varlena PgTypeId.polygon raw_payload = ok (PgDatum.polygon raw_payload)
decode_varlena t raw_payload = ok (PgDatum.raw_bytes (oid t) raw_payload)

-- The branch on a first byte 0x01: a pointer to an out-of-line value.
external_header : Bytes → ℕ → ℕ → Result DecodeError (ℕ × ℕ)
external_header bytes offset first = do
  tag ← ok_or (get_elem? bytes (offset + 1)) (buffer_too_short "varlena external tag" 2 1)
  if tag == 18 then ok (offset + 18, 0) else err (invalid_varlena_header offset first)

-- The branch on an even first byte: a header of four bytes.
long_header : Bytes → ℕ → ℕ → Result DecodeError (ℕ × ℕ)
long_header bytes offset first =
    if ltb (length bytes) (offset + 4)
    then err (buffer_too_short "varlena header (4-byte)" 4 (length bytes - offset))
    else do
      header_word ← read_word 4 bytes offset
      let tag = bit_and header_word 0x03
      if tag == 0x00
          then ok (offset + 4, header_word / 2 ^ 2 - 4)
          else if tag == 0x02
          then ok (offset + 4, header_word / 2 ^ 2 - 4)
          else err (invalid_varlena_header offset first)

-- Where the payload starts and how long it is.
unfoldable pub read_varlena_header : Bytes → ℕ → Result DecodeError (ℕ × ℕ)
unfolding external_header long_header
read_varlena_header bytes offset = do
  first ← ok_or (get_elem? bytes offset) (buffer_too_short "varlena header" 1 0)
  if first == 0x01
      then external_header bytes offset first
      else if not (bit_and first 0x01 == 0)
      then ok (offset + 1, first / 2 ^ 1 - 1)
      else long_header bytes offset first

-- The branch of a C string, on the bytes from the offset on.
decode_c_string : Bytes → Result DecodeError (PgDatum × ℕ)
decode_c_string bytes = do
  cstr ← ok_or (from_bytes_until_nul bytes) missing_nul_terminator
  s ← map_err (invalid_utf8 "cstring") (from_utf8 cstr)
  ok (PgDatum.text s, length s + 1)

-- `decode_datum` by the length class of the type.
unfoldable pub decode_by_len : PgTypeLen → PgTypeId → Bytes → ℕ → Result DecodeError (PgDatum × ℕ)
unfolding decode_c_string
decode_by_len (PgTypeLen.fixed n) t bytes offset = do
  column ←
      ok_or (get_range bytes offset (offset + n))
        (buffer_too_short (info t).name n (length bytes - offset))
  datum ← decode_fixed t column
  ok (datum, n)
decode_by_len PgTypeLen.varlena t bytes offset = do
  (payload_start, payload_len) ← read_varlena_header bytes offset
  let payload_end = payload_start + payload_len
  payload ←
      ok_or (get_range bytes payload_start payload_end)
        (buffer_too_short (info t).name payload_len (length bytes - payload_start))
  datum ← decode_varlena t payload
  ok (datum, payload_end - offset)
decode_by_len PgTypeLen.c_string t bytes offset =
    if leb offset (length bytes) then decode_c_string (drop offset bytes) else panic

-- The datum and the number of bytes it takes.
unfoldable pub decode_datum : PgTypeId → Bytes → ℕ → Result DecodeError (PgDatum × ℕ)
unfolding decode_by_len
decode_datum t = decode_by_len (type_len t) t

skip_c_string : Bytes → Result DecodeError ℕ
skip_c_string remaining = do
  nul_pos ← ok_or (nul_position remaining) missing_nul_terminator
  ok (nul_pos + 1)

-- The number of bytes a datum takes, without decoding it.
unfoldable pub skip_datum : PgTypeLen → Bytes → ℕ → Result DecodeError ℕ
unfolding skip_c_string
skip_datum (PgTypeLen.fixed n) bytes offset = ok n
skip_datum PgTypeLen.varlena bytes offset = do
  (payload_start, payload_len) ← read_varlena_header bytes offset
  ok (payload_start + payload_len - offset)
skip_datum PgTypeLen.c_string bytes offset =
    if leb offset (length bytes)
    then skip_c_string (drop offset bytes)
    else err (buffer_too_short "cstring" 1 0)
