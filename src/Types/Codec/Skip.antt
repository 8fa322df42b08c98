-- ===== src/Types/Codec/Skip.antt =====
-- `skip_datum` and `decode_datum` walk alike, and stay in bounds.
use pg_arrow.Base.{
  ℕ, ◌+◌, ◌-◌, ◌≤◌, ◌<◌, ◌≡◌, arith, Bytes, Option, none, some, ok, >>=-eq-ok, ok_or, get_range,
  get_range-some, length, drop, leb, Bool-cases, inl, inr, ap, [], ◌∷◌, length-take, Option-cases,
  length-drop, leb→le,
}
use pg_arrow.Types.Defs.{PgTypeId, PgTypeLen}
use pg_arrow.Types.TypeId.{type_len}
use pg_arrow.Types.Fixed.{decode_fixed}
use pg_arrow.Types.Datum.{PgDatum, nul_position, from_bytes_until_nul, from_utf8}
use pg_arrow.Types.Codec.Header.{read_varlena_header-after}
use pg_arrow.Types.Codec.{
  decode_varlena, read_varlena_header, decode_by_len, decode_c_string, decode_datum, skip_datum,
  skip_c_string,
}

pub ok_or-eq-ok : {A E : Type 0} (o : Option A) (e : E) {a : A} → ok_or o e ≡ ok a → o ≡ some a
ok_or-eq-ok none e h = cc
ok_or-eq-ok (some b) e h = cc

-- What a decoded datum takes: `skip_datum` gives the same length, and the bytes are there.
abbrev Walks : PgTypeLen → Bytes → ℕ → ℕ → Type 0
Walks l bytes offset n = (skip_datum l bytes offset ≡ ok n) × (offset + n ≤ length bytes)

fixed-Walks :
    (k : ℕ) (t : PgTypeId) (bytes : Bytes) (offset : ℕ) {d : PgDatum} {n : ℕ}
    → decode_by_len (PgTypeLen.fixed k) t bytes offset ≡ ok (d, n)
    → Walks (PgTypeLen.fixed k) bytes offset n
unfolding decode_by_len skip_datum
fixed-Walks k t bytes offset {d} {n} h =
    let (column, found, h') = >>=-eq-ok (ok_or (get_range bytes offset (offset + k)) _) _ h in
    let (datum, decoded, h'') = >>=-eq-ok (decode_fixed t column) _ h' in
    let inside = get_range-some bytes offset (offset + k) (ok_or-eq-ok _ _ found) in
    let same : k ≡ n = cc in (ap ok same, omega arith)

varlena-Walks :
    (t : PgTypeId) (bytes : Bytes) (offset : ℕ) {d : PgDatum} {n : ℕ}
    → decode_by_len PgTypeLen.varlena t bytes offset ≡ ok (d, n)
    → Walks PgTypeLen.varlena bytes offset n
unfolding decode_by_len skip_datum
varlena-Walks t bytes offset {d} {n} h =
    let ((start, len), header, h') = >>=-eq-ok (read_varlena_header bytes offset) _ h in
    let (payload, found, h'') = >>=-eq-ok (ok_or (get_range bytes start (start + len)) _) _ h' in
    let (datum, decoded, h''') = >>=-eq-ok (decode_varlena t payload) _ h'' in
    let inside = get_range-some bytes start (start + len) (ok_or-eq-ok _ _ found) in
    let same : start + len - offset ≡ n = cc in
    (rw header (ap ok same), omega (arith, read_varlena_header-after bytes offset start len header))

nul_position-lt : (bs : Bytes) (i : ℕ) → nul_position bs ≡ some i → i < length bs
unfolding nul_position
nul_position-lt [] i h = cc
nul_position-lt (b ∷ bs) i h = elim (Option-cases (nul_position bs)) [
  | inl e ↦ ground (arith, e)
  | inr (j, e) ↦ ground (arith, e, nul_position-lt bs j e)
]

-- The text that is decoded has as many bytes as stand in front of the NUL.
c_string-Walks :
    (bytes : Bytes) {d : PgDatum} {n : ℕ}
    → decode_c_string bytes ≡ ok (d, n)
    → (skip_c_string bytes ≡ ok n) × (n ≤ length bytes)
unfolding decode_c_string skip_c_string from_bytes_until_nul from_utf8
c_string-Walks bytes {d} {n} h = elim (Option-cases (nul_position bytes)) [
  | inl e ↦ absurd (ground (arith, e))
  | inr (i, e) ↦ ground (arith, e, nul_position-lt bytes i e, length-take i bytes)
]

by_len-Walks :
    (l : PgTypeLen) (t : PgTypeId) (bytes : Bytes) (offset : ℕ) {d : PgDatum} {n : ℕ}
    → decode_by_len l t bytes offset ≡ ok (d, n)
    → Walks l bytes offset n
by_len-Walks (PgTypeLen.fixed k) t bytes offset h = fixed-Walks k t bytes offset h
by_len-Walks PgTypeLen.varlena t bytes offset h = varlena-Walks t bytes offset h
by_len-Walks PgTypeLen.c_string t bytes offset {d} {n} h =
    elim (Bool-cases (leb offset (length bytes))) [
      | inl e ↦
          let h' : decode_c_string (drop offset bytes) ≡ ok (d, n) =
            unfold decode_by_len in rw e at h in
          let w = c_string-Walks (drop offset bytes) h' in
          (
            unfold skip_datum in rw e w.0,
            omega (arith, w.1, length-drop offset bytes, leb→le offset (length bytes) e),
          )
      | inr e ↦ absurd (unfold decode_by_len in ground (arith, e))
    ]

-- Whenever `decode_datum` succeeds, `skip_datum` on the type's length class takes the same number of
-- bytes, and all of them are inside the data.
pub skip_datum-decode_datum :
    (t : PgTypeId) (bytes : Bytes) (offset : ℕ) {d : PgDatum} {n : ℕ}
    → decode_datum t bytes offset ≡ ok (d, n)
    → (skip_datum (type_len t) bytes offset ≡ ok n) × (offset + n ≤ length bytes)
unfolding decode_datum
skip_datum-decode_datum t bytes offset h = by_len-Walks (type_len t) t bytes offset h
