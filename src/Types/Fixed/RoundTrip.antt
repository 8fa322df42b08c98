-- ===== src/Types/Fixed/RoundTrip.antt =====
-- Values of fixed width in the server's layout are read back.
use pg_arrow.Base.{
  ℕ, ◌*◌, ◌^◌, ◌<◌, ◌≡◌, refl, arith, true, false, Bytes, [], ◌∷◌, ◌++◌, ok, length, from_le, to_le,
  from_le-to_le, read_word, slice, get_range,
}
use pg_arrow.Base.Int.{ℤ, signed, unsigned, Fits, unsigned-lt, signed-unsigned}
use pg_arrow.Types.Defs.{PgTypeId, PgTypeLen}
use pg_arrow.Types.TypeId.{type_len}
use pg_arrow.Types.Datum.{PgDatum, index}
use pg_arrow.Types.Fixed.{check_len, decode_fixed}

signed_word :
    (n half : ℕ) (z : ℤ)
    → 2 * half ≡ 256 ^ n
    → Fits half z
    → signed half (from_le (to_le n (unsigned half z))) ≡ z
signed_word n half z e h =
    let w : from_le (to_le n (unsigned half z)) ≡ unsigned half z =
      from_le-to_le n (unsigned half z) (omega (arith, unsigned-lt half z h)) in
    rw w (signed-unsigned half z h)

i16 : (z : ℤ) → Fits (2 ^ 15) z → signed (2 ^ 15) (from_le (to_le 2 (unsigned (2 ^ 15) z))) ≡ z
i16 z h = signed_word 2 (2 ^ 15) z refl h

i32 : (z : ℤ) → Fits (2 ^ 31) z → signed (2 ^ 31) (from_le (to_le 4 (unsigned (2 ^ 31) z))) ≡ z
i32 z h = signed_word 4 (2 ^ 31) z refl h

i64 : (z : ℤ) → Fits (2 ^ 63) z → signed (2 ^ 63) (from_le (to_le 8 (unsigned (2 ^ 63) z))) ≡ z
i64 z h = signed_word 8 (2 ^ 63) z refl h

-- The type of a value of fixed width; the type is `text` for the other values.
abbrev pub type_of : PgDatum → PgTypeId
type_of (PgDatum.bool b) = PgTypeId.bool
type_of (PgDatum.int2 z) = PgTypeId.int2
type_of (PgDatum.int4 z) = PgTypeId.int4
type_of (PgDatum.int8 z) = PgTypeId.int8
type_of (PgDatum.float4 w) = PgTypeId.float4
type_of (PgDatum.float8 w) = PgTypeId.float8
type_of (PgDatum.oid w) = PgTypeId.oid
type_of (PgDatum.date z) = PgTypeId.date
type_of (PgDatum.time z) = PgTypeId.time
type_of (PgDatum.timestamp z) = PgTypeId.timestamp
type_of (PgDatum.timestamp_tz z) = PgTypeId.timestamptz
type_of (PgDatum.money z) = PgTypeId.money
type_of (PgDatum.xid w) = PgTypeId.xid
type_of (PgDatum.cid w) = PgTypeId.cid
type_of (PgDatum.xid8 w) = PgTypeId.xid8
type_of (PgDatum.interval m d n) = PgTypeId.interval
type_of (PgDatum.time_tz t o) = PgTypeId.timetz
type_of (PgDatum.point x y) = PgTypeId.point
type_of (PgDatum.line a b c) = PgTypeId.line
type_of (PgDatum.lseg x1 y1 x2 y2) = PgTypeId.lseg
type_of (PgDatum.box x1 y1 x2 y2) = PgTypeId.box
type_of (PgDatum.circle x y r) = PgTypeId.circle
type_of _ = PgTypeId.text

-- Its bytes, words lowest byte first.
abbrev pub encode : PgDatum → Bytes
encode (PgDatum.bool true) = 1 ∷ []
encode (PgDatum.bool false) = 0 ∷ []
encode (PgDatum.int2 z) = to_le 2 (unsigned (2 ^ 15) z)
encode (PgDatum.int4 z) = to_le 4 (unsigned (2 ^ 31) z)
encode (PgDatum.int8 z) = to_le 8 (unsigned (2 ^ 63) z)
encode (PgDatum.float4 w) = to_le 4 w
encode (PgDatum.float8 w) = to_le 8 w
encode (PgDatum.oid w) = to_le 4 w
encode (PgDatum.date z) = to_le 4 (unsigned (2 ^ 31) z)
encode (PgDatum.time z) = to_le 8 (unsigned (2 ^ 63) z)
encode (PgDatum.timestamp z) = to_le 8 (unsigned (2 ^ 63) z)
encode (PgDatum.timestamp_tz z) = to_le 8 (unsigned (2 ^ 63) z)
encode (PgDatum.money z) = to_le 8 (unsigned (2 ^ 63) z)
encode (PgDatum.xid w) = to_le 4 w
encode (PgDatum.cid w) = to_le 4 w
encode (PgDatum.xid8 w) = to_le 8 w
encode (PgDatum.interval m d n) =
    to_le 8 (unsigned (2 ^ 63) m)
    ++ (to_le 4 (unsigned (2 ^ 31) d) ++ to_le 4 (unsigned (2 ^ 31) n))
encode (PgDatum.time_tz t o) = to_le 8 (unsigned (2 ^ 63) t) ++ to_le 4 (unsigned (2 ^ 31) o)
encode (PgDatum.point x y) = to_le 8 x ++ to_le 8 y
encode (PgDatum.line a b c) = to_le 8 a ++ (to_le 8 b ++ to_le 8 c)
encode (PgDatum.lseg x1 y1 x2 y2) = to_le 8 x1 ++ (to_le 8 y1 ++ (to_le 8 x2 ++ to_le 8 y2))
encode (PgDatum.box x1 y1 x2 y2) = to_le 8 x1 ++ (to_le 8 y1 ++ (to_le 8 x2 ++ to_le 8 y2))
encode (PgDatum.circle x y r) = to_le 8 x ++ (to_le 8 y ++ to_le 8 r)
encode _ = []

-- Its numbers fit in their words.
abbrev pub InRange : PgDatum → Type 0
InRange (PgDatum.bool b) = Unit
InRange (PgDatum.int2 z) = Fits (2 ^ 15) z
InRange (PgDatum.int4 z) = Fits (2 ^ 31) z
InRange (PgDatum.int8 z) = Fits (2 ^ 63) z
InRange (PgDatum.float4 w) = w < 256 ^ 4
InRange (PgDatum.float8 w) = w < 256 ^ 8
InRange (PgDatum.oid w) = w < 256 ^ 4
InRange (PgDatum.date z) = Fits (2 ^ 31) z
InRange (PgDatum.time z) = Fits (2 ^ 63) z
InRange (PgDatum.timestamp z) = Fits (2 ^ 63) z
InRange (PgDatum.timestamp_tz z) = Fits (2 ^ 63) z
InRange (PgDatum.money z) = Fits (2 ^ 63) z
InRange (PgDatum.xid w) = w < 256 ^ 4
InRange (PgDatum.cid w) = w < 256 ^ 4
InRange (PgDatum.xid8 w) = w < 256 ^ 8
InRange (PgDatum.interval m d n) = Fits (2 ^ 63) m × Fits (2 ^ 31) d × Fits (2 ^ 31) n
InRange (PgDatum.time_tz t o) = Fits (2 ^ 63) t × Fits (2 ^ 31) o
InRange (PgDatum.point x y) = (x < 256 ^ 8) × (y < 256 ^ 8)
InRange (PgDatum.line a b c) = (a < 256 ^ 8) × (b < 256 ^ 8) × (c < 256 ^ 8)
InRange (PgDatum.lseg x1 y1 x2 y2) =
    (x1 < 256 ^ 8) × (y1 < 256 ^ 8) × (x2 < 256 ^ 8) × (y2 < 256 ^ 8)
InRange (PgDatum.box x1 y1 x2 y2) =
    (x1 < 256 ^ 8) × (y1 < 256 ^ 8) × (x2 < 256 ^ 8) × (y2 < 256 ^ 8)
InRange (PgDatum.circle x y r) = (x < 256 ^ 8) × (y < 256 ^ 8) × (r < 256 ^ 8)
InRange _ = ⊥

pub decode_fixed-encode : (d : PgDatum) → InRange d → decode_fixed (type_of d) (encode d) ≡ ok d
unfolding decode_fixed check_len index read_word slice get_range from_le to_le
decode_fixed-encode (PgDatum.bool true) h = refl
decode_fixed-encode (PgDatum.bool false) h = refl
decode_fixed-encode (PgDatum.int2 z) h = rw (i16 z h) refl
decode_fixed-encode (PgDatum.int4 z) h = rw (i32 z h) refl
decode_fixed-encode (PgDatum.date z) h = rw (i32 z h) refl
decode_fixed-encode (PgDatum.int8 z) h = rw (i64 z h) refl
decode_fixed-encode (PgDatum.time z) h = rw (i64 z h) refl
decode_fixed-encode (PgDatum.timestamp z) h = rw (i64 z h) refl
decode_fixed-encode (PgDatum.timestamp_tz z) h = rw (i64 z h) refl
decode_fixed-encode (PgDatum.money z) h = rw (i64 z h) refl
decode_fixed-encode (PgDatum.float4 w) h = rw (from_le-to_le 4 w h) refl
decode_fixed-encode (PgDatum.oid w) h = rw (from_le-to_le 4 w h) refl
decode_fixed-encode (PgDatum.xid w) h = rw (from_le-to_le 4 w h) refl
decode_fixed-encode (PgDatum.cid w) h = rw (from_le-to_le 4 w h) refl
decode_fixed-encode (PgDatum.float8 w) h = rw (from_le-to_le 8 w h) refl
decode_fixed-encode (PgDatum.xid8 w) h = rw (from_le-to_le 8 w h) refl
decode_fixed-encode (PgDatum.interval m d n) (hm, hd, hn) = rw (i64 m hm, i32 d hd, i32 n hn) refl
decode_fixed-encode (PgDatum.time_tz t o) (ht, ho) = rw (i64 t ht, i32 o ho) refl
decode_fixed-encode (PgDatum.point x y) (hx, hy) =
    rw (from_le-to_le 8 x hx, from_le-to_le 8 y hy) refl
decode_fixed-encode (PgDatum.line a b c) (ha, hb, hc) =
    rw (from_le-to_le 8 a ha, from_le-to_le 8 b hb, from_le-to_le 8 c hc) refl
decode_fixed-encode (PgDatum.circle x y r) (hx, hy, hr) =
    rw (from_le-to_le 8 x hx, from_le-to_le 8 y hy, from_le-to_le 8 r hr) refl
decode_fixed-encode (PgDatum.lseg x1 y1 x2 y2) (hx1, hy1, hx2, hy2) =
    rw
      (
        from_le-to_le 8 x1 hx1,
        from_le-to_le 8 y1 hy1,
        from_le-to_le 8 x2 hx2,
        from_le-to_le 8 y2 hy2,
      )
      refl
decode_fixed-encode (PgDatum.box x1 y1 x2 y2) (hx1, hy1, hx2, hy2) =
    rw
      (
        from_le-to_le 8 x1 hx1,
        from_le-to_le 8 y1 hy1,
        from_le-to_le 8 x2 hx2,
        from_le-to_le 8 y2 hy2,
      )
      refl
decode_fixed-encode d h = absurd h

pub type_len-type_of :
    (d : PgDatum) → InRange d → type_len (type_of d) ≡ PgTypeLen.fixed (length (encode d))
unfolding type_len to_le
type_len-type_of (PgDatum.bool true) h = refl
type_len-type_of (PgDatum.bool false) h = refl
type_len-type_of (PgDatum.int2 z) h = refl
type_len-type_of d h = ground arith
