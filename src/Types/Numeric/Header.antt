-- ===== src/Types/Numeric/Header.antt =====
-- Numeric headers in both of the server's formats are read back.
use pg_arrow.Base.{
  ℕ, suc, ◌+◌, ◌-◌, ◌*◌, ◌/◌, ◌%◌, ◌^◌, ◌<◌, ◌≡◌, refl, arith, ◌∙◌, Bool, true, false, not, Bytes,
  [], ◌++◌, ok, ltb, ◌==◌, length, to_le, read_word, read_word-to_le, bit_and, bit_or,
}
use pg_arrow.Base.Bits.{bit_and-ones, bit_and-field_at, bit_or-add, bit_or_comm}
use pg_arrow.Base.Int.{ℤ, pos, negsuc, signed, unsigned, Fits, unsigned-lt, signed-unsigned}
use pg_arrow.Types.Numeric.{
  trunc_half, count_digits, short_weight, short_numeric, long_numeric, numeric_by_flag,
  parse_numeric_header,
}

abbrev pub bit : Bool → ℕ
bit true = 1
bit false = 0

count_digits-lt :
    (digits : Bytes) → length digits < 2 ^ 31 → count_digits digits ≡ pos (length digits / 2)
unfolding count_digits trunc_half
count_digits-lt digits h =
    let e : length digits % 2 ^ 32 ≡ length digits = omega arith in rw e (ground arith)

-- The short format: the flag, the sign, six bits of scale, and seven bits of weight.
abbrev pub short_word : Bool → ℕ → ℤ → ℕ
short_word neg dscale weight = 0x8000 + bit neg * 0x2000 + dscale * 0x80 + unsigned 64 weight

-- The long format: the sign and 14 bits of scale.
abbrev pub long_word : Bool → ℕ → ℕ
long_word neg dscale = bit neg * 0x4000 + dscale

short_weight-word : (h : ℕ) (z : ℤ) → Fits 64 z → h % 128 ≡ unsigned 64 z → short_weight h ≡ z
unfolding short_weight
short_weight-word h (pos k) f e =
    let low : bit_and h 0x003f ≡ h % 64 = bit_and-ones 6 h in
    let sign : bit_and h 0x0040 ≡ h / 64 % 2 * 64 = bit_and-field_at 6 1 h refl in
    rw (low, sign) (ground arith)
short_weight-word h (negsuc k) f e =
    let low : bit_and h 0x003f ≡ h % 64 = bit_and-ones 6 h in
    let sign : bit_and h 0x0040 ≡ h / 64 % 2 * 64 = bit_and-field_at 6 1 h refl in
    let extended : bit_or (h % 64) (2 ^ 32 - 1 - 0x003f) ≡ 67108863 * 2 ^ 6 + h % 64 =
      bit_or_comm (h % 64) (2 ^ 32 - 1 - 0x003f) ∙ bit_or-add 6 67108863 (h % 64) (omega arith) in
    rw (low, sign, extended) (ground arith)

module _ (neg : Bool) (dscale : ℕ) (weight : ℤ) (small : dscale < 64) (fits : Fits 64 weight) where
  word : ℕ
  word = short_word neg dscale weight

  parts :
      (word < 2 ^ 16)
      × (bit_and word 0xc000 ≡ 0x8000)
      × (bit_and word 0x8000 ≡ 0x8000)
      × (bit_and word 0x2000 ≡ bit neg * 0x2000)
      × (bit_and word 0x1f80 / 2 ^ 7 ≡ dscale)
      × (word % 128 ≡ unsigned 64 weight)
  unfolding word
  parts =
      let w = short_word neg dscale weight in
      let seven : unsigned 64 weight < 128 = seven_bits weight fits in
      let one : bit neg < 2 = one_bit neg in
      omega (
        arith,
        bit_and-field_at 14 2 w {m = 0xc000} refl,
        bit_and-field_at 15 1 w {m = 0x8000} refl,
        bit_and-field_at 13 1 w {m = 0x2000} refl,
        bit_and-field_at 7 6 w {m = 0x1f80} refl,
      )
    where
      one_bit : (b : Bool) → bit b < 2
      one_bit true = omega arith
      one_bit false = omega arith

      seven_bits : (z : ℤ) → Fits 64 z → unsigned 64 z < 128
      seven_bits (pos n) h = omega arith
      seven_bits (negsuc n) h = omega arith

short_sign : (neg : Bool) → not (bit neg * 0x2000 == 0) ≡ neg
short_sign true = refl
short_sign false = refl

-- The header of a short numeric is read back: its sign, its scale of six bits, its weight of seven bits
-- with the sign, and as digits all the bytes behind it, fewer than 2 ^ 31, two for each digit.
pub parse_numeric_header-short_word :
    (neg : Bool) (dscale : ℕ) (weight : ℤ) (digits : Bytes)
    → dscale < 64
    → Fits 64 weight
    → length digits < 2 ^ 31
    → parse_numeric_header (to_le 2 (short_word neg dscale weight) ++ digits)
      ≡ ok (record {
        digits = digits;
        ndigits = pos (length digits / 2);
        weight = weight;
        dscale = dscale;
        is_neg = neg;
      })
unfolding parse_numeric_header short_numeric numeric_by_flag to_le word
parse_numeric_header-short_word neg dscale weight digits small fits few =
    let w = short_word neg dscale weight in
    let (room, flags, short, sign, scale, low) = parts neg dscale weight small fits in
    let enough : ltb (suc (suc (length digits))) 2 ≡ false = ground arith in
    let header : read_word {E = Unit {0}} 2 (to_le 2 w ++ digits) 0 ≡ ok w =
      read_word-to_le 2 w [] digits room in
    rw
      (
        enough,
        header,
        flags,
        short,
        sign,
        scale,
        short_weight-word w weight fits low,
        count_digits-lt digits few,
        short_sign neg,
      )
      refl

long_parts :
    (neg : Bool) (dscale : ℕ)
    → dscale < 2 ^ 14
    → (long_word neg dscale < 2 ^ 16)
      × (bit_and (long_word neg dscale) 0xc000 ≡ bit neg * 0x4000)
      × (bit_and (long_word neg dscale) 0x8000 ≡ 0)
      × (bit_and (long_word neg dscale) 0x3fff ≡ dscale)
long_parts true dscale h =
    let w = long_word true dscale in
    omega (
      arith,
      bit_and-field_at 14 2 w {m = 0xc000} refl,
      bit_and-field_at 15 1 w {m = 0x8000} refl,
      bit_and-ones 14 w,
    )
long_parts false dscale h =
    let w = long_word false dscale in
    omega (
      arith,
      bit_and-field_at 14 2 w {m = 0xc000} refl,
      bit_and-field_at 15 1 w {m = 0x8000} refl,
      bit_and-ones 14 w,
    )

long_sign : (neg : Bool) → (bit neg * 0x4000 == 0x4000) ≡ neg
long_sign true = refl
long_sign false = refl

not_special : (neg : Bool) → (bit neg * 0x4000 == 0xc000) ≡ false
not_special true = refl
not_special false = refl

-- The header of a long numeric is read back: its sign, its scale of 14 bits, its weight of 16 bits with
-- the sign, and as digits all the bytes behind it, fewer than 2 ^ 31, two for each digit.
pub parse_numeric_header-long_word :
    (neg : Bool) (dscale : ℕ) (weight : ℤ) (digits : Bytes)
    → dscale < 2 ^ 14
    → Fits (2 ^ 15) weight
    → length digits < 2 ^ 31
    → parse_numeric_header
        (to_le 2 (long_word neg dscale) ++ (to_le 2 (unsigned (2 ^ 15) weight) ++ digits))
      ≡ ok (record {
        digits = digits;
        ndigits = pos (length digits / 2);
        weight = weight;
        dscale = dscale;
        is_neg = neg;
      })
unfolding parse_numeric_header long_numeric numeric_by_flag to_le
parse_numeric_header-long_word neg dscale weight digits small fits few =
    let w = long_word neg dscale in
    let (room, flags, long, scale) = long_parts neg dscale small in
    let enough : ltb (suc (suc (suc (suc (length digits))))) 2 ≡ false = ground arith in
    let v = unsigned (2 ^ 15) weight in
    let bytes = to_le 2 w ++ (to_le 2 v ++ digits) in
    let header : read_word {E = Unit {0}} 2 bytes 0 ≡ ok w =
      read_word-to_le 2 w [] (to_le 2 v ++ digits) room in
    let second : read_word {E = Unit {0}} 2 bytes 2 ≡ ok v =
      read_word-to_le 2 v (to_le 2 w) digits (unsigned-lt (2 ^ 15) weight fits) in
    let back : signed (2 ^ 15) v ≡ weight = signed-unsigned (2 ^ 15) weight fits in
    let enough' : ltb (suc (suc (suc (suc (length digits))))) 4 ≡ false = ground arith in
    rw
      (
        enough,
        enough',
        header,
        second,
        flags,
        not_special neg,
        long,
        scale,
        back,
        count_digits-lt digits few,
        long_sign neg,
      )
      refl
