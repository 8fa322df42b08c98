-- ===== src/Types/Codec/Panic.antt =====
-- When decoding a column panics.
use pg_arrow.Base.{
  ℕ, ◌+◌, ◌≤◌, ◌<◌, ◌≡◌, ◌≢◌, refl, arith, Bytes, none, some, ok, panic, ◌>>=◌, >>=-eq-panic, ◌⊎◌,
  ◌↔◌, get_range, get_range-in, get_range-out, length, length-sub_list, sub_list, read_word-in,
  slice, slice-in, take_whole, ap, ◌∙◌, inl, inr, Option-cases, get_elem?,
}
use native.Mathlib.Decide.{dec_le}
use mathlib.Core.Path.{subst}
use pg_arrow.Base.Utf8.{utf8_error}
use pg_arrow.Types.Defs.{PgTypeId, PgTypeLen}
use pg_arrow.Types.TypeId.{type_len}
use pg_arrow.Types.Fixed.{decode_fixed}
use pg_arrow.Types.Datum.{DecodeError, from_utf8, from_bytes_until_nul}
use pg_arrow.Types.Codec.{
  decode_varlena, read_varlena_header, external_header, long_header, decode_by_len, decode_datum,
}
use pg_arrow.Types.Codec.Total.{IsOk, decode_datum_fixed}

external_header-ne-panic :
    (bytes : Bytes) (offset first : ℕ) → external_header bytes offset first ≢ panic
unfolding external_header
external_header-ne-panic bytes offset first e = ground arith

long_header-ne-panic : (bytes : Bytes) (offset first : ℕ) → long_header bytes offset first ≢ panic
unfolding long_header
long_header-ne-panic bytes offset first e =
    ground (arith, read_word-in {E = DecodeError} 4 bytes offset)

header-ne-panic : (bytes : Bytes) (offset : ℕ) → read_varlena_header bytes offset ≢ panic
unfolding read_varlena_header
header-ne-panic bytes offset e = elim (Option-cases (get_elem? bytes offset)) [
  | inl out ↦ ground (arith, out)
  | inr (first, found) ↦ ground (
    arith,
    found,
    external_header-ne-panic bytes offset first,
    long_header-ne-panic bytes offset first,
  )
]

decode_varlena-ne-panic : (t : PgTypeId) (payload : Bytes) → decode_varlena t payload ≢ panic
unfolding decode_varlena from_utf8
decode_varlena-ne-panic PgTypeId.text payload e = ground arith
decode_varlena-ne-panic _ payload e = ground arith

varlena-ne-panic :
    (t : PgTypeId) (bytes : Bytes) (offset : ℕ)
    → decode_by_len PgTypeLen.varlena t bytes offset ≢ panic
unfolding decode_by_len
varlena-ne-panic t bytes offset e = elim (>>=-eq-panic (read_varlena_header bytes offset) _ e) [
  | inl p ↦ header-ne-panic bytes offset p
  | inr ((start, len), header, e') ↦
      let found = get_range bytes start (start + len) in
      elim (Option-cases found) [
        | inl out ↦ cc (rw out at e')
        | inr (payload, inside) ↦
            elim (>>=-eq-panic (decode_varlena t payload) _ (rw inside at e')) [
              | inl p ↦ decode_varlena-ne-panic t payload p
              | inr (datum, decoded, e'') ↦ cc
            ]
      ]
]

type_len-ne-c_string : (t : PgTypeId) → type_len t ≢ PgTypeLen.c_string
unfolding type_len
type_len-ne-c_string PgTypeId.bool e = cc
type_len-ne-c_string _ e = cc

PgTypeId-discrete : Discrete PgTypeId
PgTypeId-discrete = hlevel

by_len-ne-panic :
    (l : PgTypeLen) (t : PgTypeId) (bytes : Bytes) (offset : ℕ)
    → type_len t ≡ l
    → t ≢ PgTypeId.name
    → decode_datum t bytes offset ≢ panic
by_len-ne-panic (PgTypeLen.fixed n) t bytes offset l ne e =
    elim (decode_datum_fixed t n bytes offset l ne) [
      | inl (inside, decoded) ↦ absurd (subst IsOk e decoded)
      | inr (outside, failed) ↦ cc
    ]
by_len-ne-panic PgTypeLen.varlena t bytes offset l ne e =
    varlena-ne-panic t bytes offset (unfold decode_datum in rw l at e)
by_len-ne-panic PgTypeLen.c_string t bytes offset l ne e = absurd (type_len-ne-c_string t l)

-- The 64 bytes of a `name` column hold no NUL, or no text in front of it.
abbrev pub IsNoName : Bytes → Type 0
IsNoName column =
    (from_bytes_until_nul column ≡ none)
    ⊎ ((s : Bytes) × (at : ℕ) × (from_bytes_until_nul column ≡ some s) × (utf8_error s ≡ some at))

name_column :
    (column : Bytes)
    → length column ≡ 64
    → (decode_fixed PgTypeId.name column ≡ panic) ↔ IsNoName column
unfolding decode_fixed from_utf8
name_column column h = (there, back)
  where
    whole : slice {E = DecodeError} column 0 64 ≡ ok column
    whole =
        slice-in column 0 64 (omega arith) (omega arith)
        ∙ ap ok (take_whole 64 column (omega arith))

    there : decode_fixed PgTypeId.name column ≡ panic → IsNoName column
    there e = elim (Option-cases (from_bytes_until_nul column)) [
      | inl out ↦ inl out
      | inr (s, found) ↦ elim (Option-cases (utf8_error s)) [
        | inl good ↦ absurd (ground (arith, whole, found, good, h))
        | inr (at, bad) ↦ inr (s, at, found, bad)
      ]
    ]

    back : IsNoName column → decode_fixed PgTypeId.name column ≡ panic
    back (inl out) = ground (arith, whole)
    back (inr (s, at, found, bad)) = ground (arith, whole)

name_datum_in :
    (bytes : Bytes) (offset : ℕ)
    → offset + 64 ≤ length bytes
    → decode_datum PgTypeId.name bytes offset ≡ (
        decode_fixed PgTypeId.name (sub_list bytes offset (offset + 64)) >>= λ datum.
        ok (datum, 64))
unfolding decode_datum decode_by_len type_len
name_datum_in bytes offset h = rw (get_range-in bytes offset (offset + 64) (omega arith) h)

name_datum_out :
    (bytes : Bytes) (offset : ℕ)
    → length bytes < offset + 64
    → decode_datum PgTypeId.name bytes offset ≢ panic
unfolding decode_datum decode_by_len type_len
name_datum_out bytes offset h e = cc (rw (get_range-out bytes offset (offset + 64) h) at e)

-- `decode_datum` panics in one case only: the column is a `name`, its 64 bytes are inside the data,
-- and they hold no NUL, or a text in front of the first NUL that is not UTF-8.
pub decode_datum-panic_iff :
    (t : PgTypeId) (bytes : Bytes) (offset : ℕ)
    → (decode_datum t bytes offset ≡ panic) ↔ (
        (t ≡ PgTypeId.name)
        × (offset + 64 ≤ length bytes)
        × IsNoName (sub_list bytes offset (offset + 64)))
decode_datum-panic_iff t bytes offset = (there, back)
  where
    column : Bytes
    column = sub_list bytes offset (offset + 64)

    width : offset + 64 ≤ length bytes → length column ≡ 64
    width h = omega (arith, length-sub_list bytes offset (offset + 64) (omega arith) h)

    name_panics :
        decode_datum PgTypeId.name bytes offset ≡ panic
        → (offset + 64 ≤ length bytes) × IsNoName column
    name_panics e = elim (dec_le (offset + 64) (length bytes)) [
      | yes h ↦
          let d = rw (name_datum_in bytes offset h) at e in
          elim (>>=-eq-panic (decode_fixed PgTypeId.name column) _ d) [
            | inl p ↦ (h, (name_column column (width h)).0 p)
            | inr (datum, decoded, p) ↦ absurd (cc)
          ]
      | no n ↦ absurd (name_datum_out bytes offset (omega arith) e)
    ]

    there :
        decode_datum t bytes offset ≡ panic
        → (t ≡ PgTypeId.name) × (offset + 64 ≤ length bytes) × IsNoName column
    there e = elim (PgTypeId-discrete t PgTypeId.name) [
      | yes same ↦ let (inside, bad) = name_panics (rw same at e) in (same, inside, bad)
      | no ne ↦ absurd (by_len-ne-panic (type_len t) t bytes offset refl ne e)
    ]

    back :
        (t ≡ PgTypeId.name) × (offset + 64 ≤ length bytes) × IsNoName column
        → decode_datum t bytes offset ≡ panic
    back (same, inside, bad) =
        rw (same, name_datum_in bytes offset inside, (name_column column (width inside)).1 bad)
