-- ===== src/Types/Numeric.antt =====
-- src/types/arrow.rs: `parse_numeric_header`. `None` is the error, with nothing in it.
pub mod Header
mod Tests
use pg_arrow.Base.{
  ℕ, zero, suc, ◌+◌, ◌-◌, ◌/◌, ◌%◌, ◌^◌, Bool, not, Bytes, Result, ok, err, ◌>>=◌, ltb, ◌==◌,
  if◌then◌else◌, length, drop, read_word, bit_and, bit_or,
}
use pg_arrow.Base.Int.{ℤ, pos, negsuc, signed}

-- The slice of digits, their number, the weight, the display scale and the sign.
pub record NumericHeader : Type 0 where
  pub digits : Bytes
  pub ndigits : ℤ
  pub weight : ℤ
  pub dscale : ℕ
  pub is_neg : Bool

-- `n / 2` on `i32`, which rounds towards zero.
unfoldable pub trunc_half : ℤ → ℤ
trunc_half (pos n) = pos (n / 2)
trunc_half (negsuc zero) = pos 0
trunc_half (negsuc (suc n)) = negsuc ((n + 2) / 2 - 1)

-- `digits.len() as i32 / 2`
unfoldable pub count_digits : Bytes → ℤ
count_digits digits = trunc_half (signed (2 ^ 31) (length digits % 2 ^ 32))

-- The seven bits of the short weight, sign-extended to `i32`.
unfoldable pub short_weight : ℕ → ℤ
short_weight header =
    if not (bit_and header 0x0040 == 0)
    then signed (2 ^ 31) (bit_or (bit_and header 0x003f) (2 ^ 32 - 1 - 0x003f))
    else pos (bit_and header 0x003f)

short_numeric : Bytes → ℕ → NumericHeader
short_numeric bytes header = record {
  digits = drop 2 bytes;
  ndigits = count_digits (drop 2 bytes);
  weight = short_weight header;
  dscale = bit_and header 0x1f80 / 2 ^ 7;
  is_neg = not (bit_and header 0x2000 == 0);
}

long_numeric : Bytes → Result (Unit {0}) NumericHeader
long_numeric bytes = if ltb (length bytes) 4 then err tt else do
  sign_dscale ← read_word 2 bytes 0
  weight ← read_word 2 bytes 2
  ok (record {
    digits = drop 4 bytes;
    ndigits = count_digits (drop 4 bytes);
    weight = signed (2 ^ 15) weight;
    dscale = bit_and sign_dscale 0x3fff;
    is_neg = bit_and sign_dscale 0xc000 == 0x4000;
  })

numeric_by_flag : Bytes → ℕ → Result (Unit {0}) NumericHeader
numeric_by_flag bytes header =
    if bit_and header 0xc000 == 0xc000
    then err tt
    else if not (bit_and header 0x8000 == 0)
    then ok (short_numeric bytes header)
    else long_numeric bytes

unfoldable pub parse_numeric_header : Bytes → Result (Unit {0}) NumericHeader
unfolding short_numeric long_numeric numeric_by_flag
parse_numeric_header bytes =
    if ltb (length bytes) 2
    then err tt
    else do header ← read_word 2 bytes 0; numeric_by_flag bytes header
