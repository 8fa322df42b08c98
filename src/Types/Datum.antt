-- ===== src/Types/Datum.antt =====
-- src/types/codec.rs: `PgDatum`, `DecodeError`, and the values of Rust that they hold. A `String` is
-- its bytes, a float is the bit pattern that `from_ne_bytes` takes, an integer is the number.
use pg_arrow.Base.{ℕ, Bool, Bytes, String, Option, none, some, Result, ok, err}
use pg_arrow.Base.{suc, [], ◌∷◌, ◌==◌, if◌then◌else◌, take, get_elem?, unwrap}
use pg_arrow.Base.Int.{ℤ}
use pg_arrow.Base.Utf8.{utf8_error}
use mathlib.Core.Option

pub data PgDatum : Type 0 where
  bool : Bool → PgDatum
  int2 int4 int8 : ℤ → PgDatum
  float4 float8 : ℕ → PgDatum
  oid : ℕ → PgDatum
  date time timestamp timestamp_tz money : ℤ → PgDatum
  xid cid xid8 : ℕ → PgDatum
  char : ℕ → PgDatum
  name : Bytes → PgDatum
  tid : (block offset : ℕ) → PgDatum
  mac_addr mac_addr8 uuid : Bytes → PgDatum
  interval : (microseconds days months : ℤ) → PgDatum
  time_tz : (time_usec tz_offset : ℤ) → PgDatum
  point : (x y : ℕ) → PgDatum
  line : (a b c : ℕ) → PgDatum
  lseg : (x1 y1 x2 y2 : ℕ) → PgDatum
  box : (x1 y1 x2 y2 : ℕ) → PgDatum
  circle : (x y radius : ℕ) → PgDatum
  text varchar bp_char bytea json jsonb json_path xml numeric inet cidr bit var_bit path polygon :
      Bytes → PgDatum
  raw_bytes : (oid : ℕ) (payload : Bytes) → PgDatum
  null : PgDatum

-- The `source` of `InvalidUtf8` is left out: its `valid_up_to` is the offset.
pub data DecodeError : Type 0 where
  buffer_too_short : (type_name : String) (expected actual : ℕ) → DecodeError
  invalid_utf8 : (type_name : String) (offset : ℕ) → DecodeError
  missing_nul_terminator : DecodeError
  invalid_varlena_header : (offset first_byte : ℕ) → DecodeError

-- `xs[i]`
unfoldable pub index : {E : Type 0} → Bytes → ℕ → Result E ℕ
index xs i = unwrap (get_elem? xs i)

-- `iter().position(|&b| b == 0)`
unfoldable pub nul_position : Bytes → Option ℕ
nul_position [] = none
nul_position (b ∷ bs) = if b == 0 then some 0 else Option.map suc (nul_position bs)

-- `CStr::from_bytes_until_nul`: the bytes in front of the first NUL.
unfoldable pub from_bytes_until_nul : Bytes → Option Bytes
from_bytes_until_nul bs = elim (nul_position bs) [ none ↦ none | some n ↦ some (take n bs) ]

-- `std::str::from_utf8`, with `valid_up_to` as the error.
unfoldable pub from_utf8 : Bytes → Result ℕ Bytes
from_utf8 bs = elim (utf8_error bs) [ none ↦ ok bs | some at ↦ err at ]

-- `result.unwrap()`
abbrev pub or_panic : {E F A : Type 0} → Result E A → Result F A
or_panic (ok a) = ok a
or_panic _ = Result.panic
