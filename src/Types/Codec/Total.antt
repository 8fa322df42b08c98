-- ===== src/Types/Codec/Total.antt =====
-- Columns of fixed width are decoded, or refused for their length.
use pg_arrow.Base.{
  ℕ, ◌+◌, ◌-◌, ◌≤◌, ◌<◌, ◌≡◌, ◌≢◌, refl, arith, Bytes, Result, ok, err, panic, ◌⊎◌, get_range-in,
  get_range-out, length, length-sub_list, sub_list, read_word-in, slice-in, inl, inr, [], ◌∷◌,
}
use native.Mathlib.Decide.{dec_le}
use pg_arrow.Types.Defs.{PgTypeId, PgTypeLen}
use pg_arrow.Types.TypeId.{type_len}
use pg_arrow.Types.Info.{info}
use pg_arrow.Types.Fixed.{decode_fixed}
use pg_arrow.Types.Datum.{DecodeError, buffer_too_short, index}
use pg_arrow.Types.Codec.{decode_by_len, decode_datum}

abbrev pub IsOk : {E A : Type 0} → Result E A → Type 0
IsOk (ok a) = Unit
IsOk (err e) = ⊥
IsOk panic = ⊥

-- The slice that `decode_datum` hands over has the width of the type.
abbrev HasWidth : PgTypeLen → Bytes → Type 0
HasWidth (PgTypeLen.fixed n) bytes = length bytes ≡ n
HasWidth _ bytes = ⊥

index-in : (bytes : Bytes) → 0 < length bytes → IsOk {E = DecodeError} (index bytes 0)
unfolding index
index-in [] h = elim h [ ]
index-in (b ∷ bs) h = tt

-- Every read of `decode_fixed` at its width, for a type of each kind.
decode_fixed_total :
    (t : PgTypeId) (bytes : Bytes)
    → HasWidth (type_len t) bytes
    → t ≢ PgTypeId.name
    → IsOk (decode_fixed t bytes)
unfolding type_len decode_fixed
decode_fixed_total PgTypeId.bool bytes h ne = ground (arith, index-in bytes)
decode_fixed_total PgTypeId.name bytes h ne = absurd (ne refl)
decode_fixed_total _ bytes h ne = ground (
  arith,
  index-in bytes,
  read_word-in {E = DecodeError} 2 bytes 0,
  read_word-in {E = DecodeError} 4 bytes 0,
  read_word-in {E = DecodeError} 8 bytes 0,
  read_word-in {E = DecodeError} 2 bytes 4,
  read_word-in {E = DecodeError} 4 bytes 8,
  read_word-in {E = DecodeError} 4 bytes 12,
  read_word-in {E = DecodeError} 8 bytes 8,
  read_word-in {E = DecodeError} 8 bytes 16,
  read_word-in {E = DecodeError} 8 bytes 24,
  slice-in {E = DecodeError} bytes 0 6,
  slice-in {E = DecodeError} bytes 0 8,
  slice-in {E = DecodeError} bytes 0 16,
)

-- A column of a fixed-width type other than `name`: either all its bytes are inside the data and
-- it is decoded, or they are not and the error names the type, its width and what is left.
pub decode_datum_fixed :
    (t : PgTypeId) (n : ℕ) (bytes : Bytes) (offset : ℕ)
    → type_len t ≡ PgTypeLen.fixed n
    → t ≢ PgTypeId.name
    → ((offset + n ≤ length bytes) × IsOk (decode_datum t bytes offset))
      ⊎ ((length bytes < offset + n)
          × (decode_datum t bytes offset
              ≡ err (buffer_too_short (info t).name n (length bytes - offset))))
unfolding decode_datum decode_by_len
decode_datum_fixed t n bytes offset l ne = elim (dec_le (offset + n) (length bytes)) [
  | yes h ↦ inl (h, inside h)
  | no h ↦ inr (omega arith, rw (l, get_range-out bytes offset (offset + n) (omega arith)))
]
  where
    column : Bytes
    column = sub_list bytes offset (offset + n)

    width : offset + n ≤ length bytes → HasWidth (type_len t) column
    width h = rw l (omega (arith, length-sub_list bytes offset (offset + n) (omega arith) h))

    inside : offset + n ≤ length bytes → IsOk (decode_by_len (type_len t) t bytes offset)
    inside h =
        let decoded = decode_fixed_total t column (width h) ne in
        rw (l, get_range-in bytes offset (offset + n) (omega arith) h) (ground (arith, decoded))
