-- ===== src/Types/Codec/Header.antt =====
-- `read_varlena_header` on every input, and on the headers that PostgreSQL writes.
use pg_arrow.Base.{
  ℕ, ◌+◌, ◌*◌, ◌%◌, ◌^◌, ◌≤◌, ◌<◌, ◌≡◌, refl, arith, Bytes, IsByte, All, [], ◌∷◌, ◌++◌, Result, ok,
  err, panic, length, All-get_elem?, word_at-lt, sub_list-append, leb→le, leb, if◌then◌else◌,
  get_elem?, get_elem?-append_length, some, Option-cases, inl, inr, read_word-in, word_at, from_le,
  to_le, from_le-to_le, length-to_le, length-append, Bool-cases, ltb, ap, ◌∙◌,
}
use pg_arrow.Base.Bits.{bit_and-ones}
use pg_arrow.Types.Datum.{DecodeError}
use pg_arrow.Types.Codec.{read_varlena_header, external_header, long_header}

abbrev Header : Type 0
Header = Result DecodeError (ℕ × ℕ)

-- What a header gives lies behind the offset, and within 2 ^ 30 bytes of it.
abbrev pub IsNear : ℕ → Header → Type 0
IsNear offset (ok (start, len)) =
    (offset < start) × (start ≤ offset + 18) × (start + len ≤ offset + 2 ^ 30)
IsNear offset (err e) = Unit
IsNear offset panic = ⊥

external_header-IsNear :
    (bytes : Bytes) (offset first : ℕ) → IsNear offset (external_header bytes offset first)
unfolding external_header
external_header-IsNear bytes offset first = ground arith

long_header-IsNear :
    (bytes : Bytes) (offset first : ℕ)
    → All IsByte bytes
    → IsNear offset (long_header bytes offset first)
unfolding long_header
long_header-IsNear bytes offset first h = elim (Bool-cases (ltb (length bytes) (offset + 4))) [
  | inl short ↦ rw short tt
  | inr enough ↦
      let inside : offset + 4 ≤ length bytes = ground arith in
      let fits : word_at 4 bytes offset < 2 ^ 32 = word_at-lt 4 bytes offset h inside in
      rw (enough, read_word-in 4 bytes offset inside) (ground arith)
]

-- On any bytes the header read at `offset` is refused with an error, or its payload starts behind
-- `offset` and ends at most 2 ^ 30 bytes further; the read never panics.
pub read_varlena_header_bounds :
    (bytes : Bytes) (offset : ℕ)
    → All IsByte bytes
    → IsNear offset (read_varlena_header bytes offset)
unfolding read_varlena_header
read_varlena_header_bounds bytes offset h = elim (Option-cases (get_elem? bytes offset)) [
  | inl out ↦ rw out tt
  | inr (first, found) ↦
      let byte : first < 256 = All-get_elem? IsByte bytes offset first h found in
      rw found (
        ground (
          arith,
          external_header-IsNear bytes offset first,
          long_header-IsNear bytes offset first h,
        ))
]

-- The headers that PostgreSQL writes: one byte for a payload of at most 126 bytes, else four bytes.
abbrev pub header_of : Bytes → Bytes
header_of payload =
    if leb (length payload) 126
    then (2 * (length payload + 1) + 1) ∷ []
    else to_le 4 (4 * (length payload + 4))

short_read :
    (front rest : Bytes) (n : ℕ)
    → n ≤ 126
    → read_varlena_header (front ++ (((2 * (n + 1) + 1) ∷ []) ++ rest)) (length front)
      ≡ ok (length front + 1, n)
unfolding read_varlena_header
short_read front rest n h =
    let first = 2 * (n + 1) + 1 in
    let e : length front + 0 ≡ length front = omega arith in
    let found : get_elem? (front ++ (first ∷ rest)) (length front) ≡ some first =
      rw e at (get_elem?-append_length front (first ∷ rest) 0) in
    rw found (ground (arith, bit_and-ones 1 first))

first_of_long : (v : ℕ) (rest : Bytes) → get_elem? (to_le 4 v ++ rest) 0 ≡ some (v % 256)
unfolding to_le
first_of_long v rest = refl

long_read :
    (front rest : Bytes) (n : ℕ)
    → n + 4 < 2 ^ 30
    → read_varlena_header (front ++ (to_le 4 (4 * (n + 4)) ++ rest)) (length front)
      ≡ ok (length front + 4, n)
unfolding read_varlena_header
long_read front rest n h =
    let v = 4 * (n + 4) in
    let bytes = front ++ (to_le 4 v ++ rest) in
    let e : length front + 0 ≡ length front = omega arith in
    let found : get_elem? bytes (length front) ≡ some (v % 256) =
      rw e at (get_elem?-append_length front (to_le 4 v ++ rest) 0) ∙ first_of_long v rest in
    let inside : length front + 4 ≤ length bytes = omega (
      arith,
      length-append front (to_le 4 v ++ rest),
      length-append (to_le 4 v) rest,
      length-to_le 4 v,
    ) in
    let word : word_at 4 bytes (length front) ≡ v =
      ap from_le (sub_list-append front (to_le 4 v) rest (length-to_le 4 v))
      ∙ from_le-to_le 4 v (omega arith) in
    rw found (
      ground (
        arith,
        bit_and-ones 1 (v % 256),
        bit_and-ones 2 v,
        read_word-in {E = DecodeError} 4 bytes (length front) inside,
        word,
      ))

-- Behind any bytes, `read_varlena_header` finds the payload that follows the header written for it:
-- it starts where the header ends and has its length, below the format's limit of 2 ^ 30 bytes.
pub read_varlena_header-header_of :
    (front payload rest : Bytes)
    → length payload + 4 < 2 ^ 30
    → read_varlena_header (front ++ (header_of payload ++ rest)) (length front)
      ≡ ok (length front + length (header_of payload), length payload)
read_varlena_header-header_of front payload rest h = elim (Bool-cases (leb (length payload) 126)) [
  | inl small ↦ rw small (short_read front rest (length payload) (leb→le _ 126 small))
  | inr large ↦
      rw (large, length-to_le 4 (4 * (length payload + 4)))
        (long_read front rest (length payload) h)
]

-- The payload starts behind the offset, whatever the numbers are.
pub read_varlena_header-after :
    (bytes : Bytes) (offset start len : ℕ)
    → read_varlena_header bytes offset ≡ ok (start, len)
    → offset < start
unfolding read_varlena_header
read_varlena_header-after bytes offset start len h = ground arith
