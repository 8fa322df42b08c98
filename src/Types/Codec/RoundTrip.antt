-- ===== src/Types/Codec/RoundTrip.antt =====
-- A variable-length value is read back behind the header written for it.
use mathlib.Core.List.{append_assoc}
use pg_arrow.Base.{
  ◌≤◌, ◌+◌, ◌-◌, ◌^◌, ◌≤◌, ◌<◌, ◌≡◌, refl, arith, Bytes, ◌++◌, ok, ◌>>=◌, get_range, get_range-in,
  some, length, length-append, sub_list, sub_list-append, ap, ◌∙◌,
}
use pg_arrow.Types.Defs.{PgTypeId, PgTypeLen}
use pg_arrow.Types.TypeId.{type_len}
use pg_arrow.Types.Codec.{decode_varlena, decode_by_len, decode_datum}
use pg_arrow.Types.Datum.{PgDatum}
use pg_arrow.Types.Fixed.RoundTrip.{InRange, type_of, encode, decode_fixed-encode, type_len-type_of}
use pg_arrow.Types.Codec.Header.{header_of, read_varlena_header-header_of}

payload_found :
    (front header payload rest : Bytes)
    → get_range
        (front ++ (header ++ (payload ++ rest)))
        (length front + length header)
        (length front + length header + length payload)
      ≡ some payload
payload_found front header payload rest =
    let bytes = front ++ (header ++ (payload ++ rest)) in
    let start = length front + length header in
    let inside : start + length payload ≤ length bytes = omega (
      arith,
      length-append front (header ++ (payload ++ rest)),
      length-append header (payload ++ rest),
      length-append payload rest,
    ) in
    let split : (front ++ header) ++ (payload ++ rest) ≡ bytes =
      append_assoc front header (payload ++ rest) in
    let there : sub_list bytes start (start + length payload) ≡ payload =
      rw (← split, ← length-append front header)
        (sub_list-append (front ++ header) payload rest refl) in
    get_range-in bytes start (start + length payload) (omega arith) inside ∙ ap some there

-- For every varlena type, decoding at the header of a payload below 2 ^ 30 bytes gives what
-- `decode_varlena` makes of the payload, and takes the header and the payload together, whatever
-- stands in front and behind.
pub decode_datum-header_of :
    (t : PgTypeId) (front payload rest : Bytes)
    → type_len t ≡ PgTypeLen.varlena
    → length payload + 4 < 2 ^ 30
    → decode_datum t (front ++ (header_of payload ++ (payload ++ rest))) (length front) ≡ (
        decode_varlena t payload >>= λ datum.
        ok (datum, length (header_of payload) + length payload))
unfolding decode_datum decode_by_len
decode_datum-header_of t front payload rest l h =
    let header = header_of payload in
    let taken : length front + length header + length payload - length front
        ≡ length header + length payload =
      omega arith in
    rw
      (
        l,
        read_varlena_header-header_of front payload (payload ++ rest) h,
        payload_found front header payload rest,
        taken,
      )
      refl

-- A value of a fixed-width type of numbers, in range, is decoded from its bytes in the server's layout,
-- whatever stands in front and behind, and takes exactly these bytes.
pub decode_datum-encode :
    (d : PgDatum) (front rest : Bytes)
    → InRange d
    → decode_datum (type_of d) (front ++ (encode d ++ rest)) (length front)
      ≡ ok (d, length (encode d))
unfolding decode_datum decode_by_len
decode_datum-encode d front rest h =
    let bytes = front ++ (encode d ++ rest) in
    let inside : length front + length (encode d) ≤ length bytes =
      omega (arith, length-append front (encode d ++ rest), length-append (encode d) rest) in
    rw
      (
        type_len-type_of d h,
        get_range-in bytes (length front) (length front + length (encode d)) (omega arith) inside,
        sub_list-append front (encode d) rest refl,
        decode_fixed-encode d h,
      )
      refl
