-- ===== src/Types/Codec/Tests.antt =====
-- Runs of the codec, and the theorems on it at concrete columns.
use pg_arrow.Base.{
  to_le, ◌+◌, ◌-◌, ◌≤◌, ◌<◌, ◌≡◌, ◌⊎◌, ◌↔◌, refl, arith, Bytes, [], ◌∷◌, ◌++◌, ok, err, panic,
  length, replicate, sub_list, get_range, ◌>>=◌,
}
use pg_arrow.Base.Utf8.{invalid_from}
use pg_arrow.Types.Defs.{PgTypeId}
use pg_arrow.Types.TypeId.{type_len}
use pg_arrow.Types.Info.{info}
use pg_arrow.Base.Int.{negsuc}
use pg_arrow.Types.Fixed.RoundTrip.{encode}
use pg_arrow.Types.Datum.{PgDatum, buffer_too_short, from_utf8}
use pg_arrow.Types.Codec.Header.{header_of, IsNear, read_varlena_header_bounds}
use pg_arrow.Types.Codec.RoundTrip.{decode_datum-header_of, decode_datum-encode}
use pg_arrow.Types.Codec.Skip.{skip_datum-decode_datum}
use pg_arrow.Types.Codec.Total.{IsOk, decode_datum_fixed}
use pg_arrow.Types.Codec.Panic.{IsNoName, decode_datum-panic_iff}
use pg_arrow.Types.Codec.{
  decode_varlena, read_varlena_header, decode_by_len, decode_datum, skip_datum,
}

-- A text of two bytes behind its header, and an `int4`.
abbrev text_column : Bytes
text_column = 7 ∷ 97 ∷ 98 ∷ []

abbrev int4_column : Bytes
int4_column = 9 ∷ 7 ∷ 0 ∷ 0 ∷ 0 ∷ []

decode-text_column : decode_datum PgTypeId.text text_column 0 ≡ ok (PgDatum.text (97 ∷ 98 ∷ []), 3)
unfolding decode_datum decode_by_len type_len read_varlena_header decode_varlena from_utf8 get_range
    invalid_from
decode-text_column = refl

skip_datum-decode_datum_example :
    (skip_datum (type_len PgTypeId.text) text_column 0 ≡ ok 3) × (0 + 3 ≤ length text_column)
skip_datum-decode_datum_example =
    skip_datum-decode_datum PgTypeId.text text_column 0 decode-text_column

decode_datum-header_of_example :
    decode_datum PgTypeId.bytea
      ((1 ∷ []) ++ (header_of (5 ∷ 6 ∷ []) ++ ((5 ∷ 6 ∷ []) ++ (8 ∷ []))))
      1
    ≡ (decode_varlena PgTypeId.bytea (5 ∷ 6 ∷ []) >>= λ datum. ok (datum, 3))
decode_datum-header_of_example =
    decode_datum-header_of PgTypeId.bytea (1 ∷ []) (5 ∷ 6 ∷ []) (8 ∷ []) (unfold type_len in refl)
      (omega arith)

decode_datum_fixed_example :
    ((1 + 4 ≤ length int4_column) × IsOk (decode_datum PgTypeId.int4 int4_column 1))
    ⊎ ((length int4_column < 1 + 4)
        × (decode_datum PgTypeId.int4 int4_column 1
            ≡ err (buffer_too_short (info PgTypeId.int4).name 4 (length int4_column - 1))))
decode_datum_fixed_example =
    decode_datum_fixed PgTypeId.int4 4 int4_column 1 (unfold type_len in refl) (λ e. cc)

-- 64 bytes with no NUL.
abbrev full_name : Bytes
full_name = replicate 64 97

decode_datum-panic_iff_example : (decode_datum PgTypeId.name full_name 0 ≡ panic) ↔ (
    (PgTypeId.name ≡ PgTypeId.name)
    × (0 + 64 ≤ length full_name)
    × IsNoName (sub_list full_name 0 (0 + 64)))
decode_datum-panic_iff_example = decode_datum-panic_iff PgTypeId.name full_name 0

read_varlena_header_bounds_example : IsNear 0 (read_varlena_header text_column 0)
read_varlena_header_bounds_example = read_varlena_header_bounds text_column 0 (omega arith)

decode_datum-encode_example :
    decode_datum PgTypeId.int4 ((9 ∷ []) ++ (encode (PgDatum.int4 (negsuc 4)) ++ [])) 1
    ≡ ok (PgDatum.int4 (negsuc 4), 4)
unfolding to_le
decode_datum-encode_example =
    decode_datum-encode (PgDatum.int4 (negsuc 4)) (9 ∷ []) [] (omega arith)
