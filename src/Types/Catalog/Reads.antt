-- ===== src/Types/Catalog/Reads.antt =====
-- The columns that a cursor reads, against the row that `decode_row` gives.
use pg_arrow.Base.{
  ℕ, zero, suc, ◌+◌, ◌-◌, ◌≤◌, ◌≡◌, refl, arith, ap, sym, ◌∙◌, false, List, [], ◌∷◌, Option, none,
  some, ok, inl, inr, Bool-cases, drop, get_elem?,
}
use pg_arrow.Types.Datum.{PgDatum}
use pg_arrow.Types.Schema.{PgColumn, PgSchema, column, num_columns}
use pg_arrow.Types.Codec.{decode_datum}
use pg_arrow.Types.Codec.NotNull.{decode_datum-ne-null}
use pg_arrow.Heap.Tuple.{HeapTupleData, is_null}
use pg_arrow.Table.Rows.{decode_columns, decode_row, align_column}
use pg_arrow.Table.Rows.Walk.{push_null-ok, decode_column-ok, get_column-live}
use pg_arrow.Types.Catalog.Cursor.{Cursor, ◌>>=◌, pure, run, advance, read_live, next_datum, field}

-- A stored NULL is no datum.
unfoldable pub present : PgDatum → Option PgDatum
present PgDatum.null = none
present d = some d

unfoldable pub datum_of : List PgDatum → ℕ → Option PgDatum
datum_of row i = elim (get_elem? row i) [ none ↦ none | some d ↦ present d ]

then-ok :
    {A B : Type 0} (action : Cursor A) (next : A → Cursor B) (o : ℕ) {a : A} {o' : ℕ}
    → action o ≡ ok (a, o')
    → (action >>= next) o ≡ next a o'
unfolding ◌>>=◌
then-ok action next o h = rw (h, ◌>>=◌) refl

module _ (t : HeapTupleData) (s : PgSchema) (row : List PgDatum) where
  -- From column `i` on, at this offset, `decode_row` gives what `row` has behind its first `i` columns.
  abbrev At : ℕ → ℕ → Type 0
  At i offset = decode_columns t s i (num_columns s - i) offset ≡ ok (drop i row)

  -- The action reads the columns from `i` up to `j` and gives `a`.
  pub data Reads {A : Type 0} (action : Cursor A) (i j : ℕ) (a : A) : Type 0 where
    reads :
        i ≤ j
        → (j ≤ num_columns s → (o : ℕ) → At i o → (o' : ℕ) × (action o ≡ ok (a, o')) × At j o')
        → Reads action i j a

  pub pure-Reads : {A : Type 0} (a : A) (i : ℕ) → Reads (pure a) i i a
  unfolding pure
  pure-Reads a i = reads (omega arith) (λ n o h. (o, refl, h))

  bind-Reads :
      {A B : Type 0} (action : Cursor A) (next : A → Cursor B) (i j k : ℕ) (a : A) (b : B)
      → Reads action i j a
      → Reads (next a) j k b
      → Reads (action >>= next) i k b
  bind-Reads action next i j k a b (reads p f) (reads q g) = reads (omega arith) (λ n o h.
      let (o1, e1, h1) = f (omega arith) o h in
      let (o2, e2, h2) = g n o1 h1 in (o2, then-ok action next o e1 ∙ e2, h2))

  drop-cons :
      {A : Type 0} (xs : List A) (i : ℕ) {y : A} {ys : List A}
      → drop i xs ≡ y ∷ ys
      → (get_elem? xs i ≡ some y) × (drop (suc i) xs ≡ ys)
  drop-cons [] zero h = cc
  drop-cons [] (suc i) h = cc
  drop-cons (x ∷ xs) zero h = (cc, cc)
  drop-cons (x ∷ xs) (suc i) h = drop-cons xs i h

  present-live : (d : PgDatum) → ¬ d ≡ PgDatum.null → present d ≡ some d
  unfolding present
  present-live PgDatum.null h = absurd (h refl)
  present-live _ h = refl

  next_datum-live :
      (i o : ℕ) (col : PgColumn) (d : PgDatum) (size : ℕ)
      → is_null t i ≡ false
      → column s i ≡ some col
      → decode_datum col.type_id t.bytes (align_column col.type_id t.bytes o) ≡ ok (d, size)
      → next_datum t s i o ≡ ok (some d, align_column col.type_id t.bytes o + size)
  unfolding next_datum read_live advance
  next_datum-live i o col d size live there decoded =
      rw
        (
          next_datum,
          live,
          read_live,
          there,
          get_column-live t s i live there (align_column col.type_id t.bytes o),
          decoded,
        )
        refl

  datum_of-some : (i : ℕ) {d : PgDatum} → get_elem? row i ≡ some d → datum_of row i ≡ present d
  unfolding datum_of
  datum_of-some i h = rw (h, datum_of) refl

  At-step :
      (i n o : ℕ)
      → decode_columns t s i (suc n) o ≡ ok (drop i row)
      → (o' : ℕ) × (next_datum t s i o ≡ ok (datum_of row i, o'))
        × (decode_columns t s (i + 1) n o' ≡ ok (drop (suc i) row))
  unfolding decode_columns
  At-step i n o h = elim (Bool-cases (is_null t i)) [
    | inl null ↦
        let (columns, found, e) = push_null-ok (decode_columns t s (i + 1) n o) (rw null at h) in
        let (here, behind) = drop-cons row i e in
        (
          o,
          unfold next_datum present in rw (null, datum_of-some i here) refl,
          found ∙ ap ok (sym behind),
        )
    | inr live ↦
        let (col, there, (d, size, columns, decoded, found, e)) =
          decode_column-ok t s i (decode_columns t s (i + 1) n) o live (rw live at h) in
        let (here, behind) = drop-cons row i e in
        (
          align_column col.type_id t.bytes o + size,
          next_datum-live i o col d size live there decoded
              ∙ ap (λ x. ok (x, align_column col.type_id t.bytes o + size))
                  (sym (
                    datum_of-some i here
                    ∙ present-live d (
                        decode_datum-ne-null col.type_id t.bytes
                          (align_column col.type_id t.bytes o) decoded))),
          found ∙ ap ok (sym behind),
        )
  ]

  field-Reads :
      {A : Type 0} (convert : Option PgDatum → A) (i : ℕ)
      → Reads (field t s convert i) i (suc i) (convert (datum_of row i))
  unfolding field ◌>>=◌ pure
  field-Reads convert i = reads (omega arith) (λ inside o h.
      let e : num_columns s - i ≡ suc (num_columns s - suc i) = omega arith in
      let f : i + 1 ≡ suc i = omega arith in
      let (o', read, h') = At-step i (num_columns s - suc i) o (rw e at h) in
      (o', then-ok (next_datum t s i) (λ d. pure (convert d)) o read, (rw f at h')))

  -- A column and the action behind it.
  pub column-Reads :
      {A B : Type 0} (convert : Option PgDatum → A) (next : A → Cursor B) (i k : ℕ) (b : B)
      → Reads (next (convert (datum_of row i))) (suc i) k b
      → Reads (field t s convert i >>= next) i k b
  column-Reads convert next i k b h =
      bind-Reads (field t s convert i) next i (suc i) k (convert (datum_of row i)) b
        (field-Reads convert i) h

  -- What an action that reads the first `n` columns gives from offset 0 on.
  pub run-Reads :
      {A : Type 0} {action : Cursor A} {n : ℕ} {a : A}
      → Reads action 0 n a
      → decode_row t s ≡ ok row
      → n ≤ num_columns s
      → run action ≡ ok a
  unfolding run decode_row
  run-Reads (reads p f) h wide =
      let all : num_columns s - 0 ≡ num_columns s = omega arith in
      let (o, e, h') = f wide 0 (rw all h) in rw (e, run) refl

pub ruleset reads_rules = (pure-Reads, column-Reads)
