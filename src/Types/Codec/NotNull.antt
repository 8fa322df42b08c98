-- ===== src/Types/Codec/NotNull.antt =====
-- No stored value decodes to `PgDatum::Null`.
use pg_arrow.Base.{
  ℕ, ◌≡◌, ◌≢◌, arith, Bytes, ok, >>=-eq-ok, ok_or, get_range, inl, inr, leb, Bool-cases, length,
  drop, ◌+◌,
}
use pg_arrow.Types.Defs.{PgTypeId, PgTypeLen}
use pg_arrow.Types.TypeId.{type_len}
use pg_arrow.Types.Fixed.{decode_fixed}
use pg_arrow.Types.Datum.{PgDatum}
use pg_arrow.Types.Codec.{
  decode_varlena, read_varlena_header, decode_by_len, decode_c_string, decode_datum,
}

fixed-ne-null : (t : PgTypeId) (column : Bytes) → decode_fixed t column ≢ ok PgDatum.null
unfolding decode_fixed
fixed-ne-null PgTypeId.bool column h = ground arith
fixed-ne-null _ column h = ground arith

varlena-ne-null : (t : PgTypeId) (payload : Bytes) → decode_varlena t payload ≢ ok PgDatum.null
unfolding decode_varlena
varlena-ne-null PgTypeId.text payload h = ground arith
varlena-ne-null _ payload h = ground arith

c_string-ne-null : (bytes : Bytes) (n : ℕ) → decode_c_string bytes ≢ ok (PgDatum.null, n)
unfolding decode_c_string
c_string-ne-null bytes n h = ground arith

by_len-ne-null :
    (l : PgTypeLen) (t : PgTypeId) (bytes : Bytes) (offset : ℕ) {d : PgDatum} {n : ℕ}
    → decode_by_len l t bytes offset ≡ ok (d, n)
    → d ≢ PgDatum.null
unfolding decode_by_len
by_len-ne-null (PgTypeLen.fixed k) t bytes offset h e =
    let (column, found, h') = >>=-eq-ok (ok_or (get_range bytes offset (offset + k)) _) _ h in
    let (datum, decoded, h'') = >>=-eq-ok (decode_fixed t column) _ h' in
    fixed-ne-null t column (cc)
by_len-ne-null PgTypeLen.varlena t bytes offset h e =
    let ((start, len), header, h') = >>=-eq-ok (read_varlena_header bytes offset) _ h in
    let (payload, found, h'') = >>=-eq-ok (ok_or (get_range bytes start (start + len)) _) _ h' in
    let (datum, decoded, h''') = >>=-eq-ok (decode_varlena t payload) _ h'' in
    varlena-ne-null t payload (cc)
by_len-ne-null PgTypeLen.c_string t bytes offset {d} {n} h e =
    elim (Bool-cases (leb offset (length bytes))) [
      | inl y ↦ c_string-ne-null (drop offset bytes) n (rw (y, e) at h)
      | inr y ↦ absurd (ground (arith, y))
    ]

pub decode_datum-ne-null :
    (t : PgTypeId) (bytes : Bytes) (offset : ℕ) {d : PgDatum} {n : ℕ}
    → decode_datum t bytes offset ≡ ok (d, n)
    → d ≢ PgDatum.null
unfolding decode_datum
decode_datum-ne-null t bytes offset h = by_len-ne-null (type_len t) t bytes offset h
