-- ===== src/Table/Rows/Scatter.antt =====
-- Writing the datums of a row to their places in the output.
use pg_arrow.Base.{
  ℕ, zero, suc, ◌≡◌, ◌≢◌, refl, arith, ap, ◌∙◌, List, [], ◌∷◌, Option, none, some, length,
  length-set, get_elem?, set,
}
use pg_arrow.Types.Datum.{PgDatum}

module _ {ℓ} {A : Type ℓ} where
  pub get_elem?-set_same :
      (xs : List A) (i : ℕ) (v : A) {w : A}
      → get_elem? xs i ≡ some w
      → get_elem? (set xs i v) i ≡ some v
  get_elem?-set_same [] i v h = cc
  get_elem?-set_same (x ∷ xs) zero v h = refl
  get_elem?-set_same (x ∷ xs) (suc i) v h = get_elem?-set_same xs i v h

  pub get_elem?-set_other :
      (xs : List A) (i k : ℕ) (v : A) → i ≢ k → get_elem? (set xs i v) k ≡ get_elem? xs k
  get_elem?-set_other [] i k v h = refl
  get_elem?-set_other (x ∷ xs) zero zero v h = absurd (h refl)
  get_elem?-set_other (x ∷ xs) zero (suc k) v h = refl
  get_elem?-set_other (x ∷ xs) (suc i) zero v h = refl
  get_elem?-set_other (x ∷ xs) (suc i) (suc k) v h =
      get_elem?-set_other xs i k v (λ e. h (ap suc e))

-- NULL leaves the output as it is.
abbrev pub put : PgDatum → ℕ → List PgDatum → List PgDatum
put PgDatum.null j out = out
put d j out = set out j d

pub put_datum :
    (d : PgDatum) (j : ℕ) (out : List PgDatum) → d ≢ PgDatum.null → put d j out ≡ set out j d
put_datum PgDatum.null j out h = absurd (h refl)
put_datum (PgDatum.bool b) j out h = refl
put_datum _ j out h = refl

put-other :
    (d : PgDatum) (j k : ℕ) (out : List PgDatum)
    → j ≢ k
    → get_elem? (put d j out) k ≡ get_elem? out k
put-other PgDatum.null j k out h = refl
put-other (PgDatum.bool b) j k out h = get_elem?-set_other out j k (PgDatum.bool b) h
put-other d j k out h = get_elem?-set_other out j k d h

put-same :
    (d : PgDatum) (j : ℕ) (out : List PgDatum)
    → get_elem? out j ≡ some PgDatum.null
    → get_elem? (put d j out) j ≡ some d
put-same PgDatum.null j out h = h
put-same (PgDatum.bool b) j out h = get_elem?-set_same out j (PgDatum.bool b) h
put-same d j out h = get_elem?-set_same out j d h

length-put : (d : PgDatum) (j : ℕ) (out : List PgDatum) → length (put d j out) ≡ length out
length-put PgDatum.null j out = refl
length-put (PgDatum.bool b) j out = length-set out j (PgDatum.bool b)
length-put d j out = length-set out j d

-- The row's datums written to their places, in the order of the columns.
abbrev pub scatter : List (Option ℕ) → List PgDatum → List PgDatum → List PgDatum
scatter [] row out = out
scatter (place ∷ places) [] out = out
scatter (none ∷ places) (d ∷ row) out = scatter places row out
scatter (some j ∷ places) (d ∷ row) out = scatter places row (put d j out)

pub length-scatter :
    (places : List (Option ℕ)) (row out : List PgDatum)
    → length (scatter places row out) ≡ length out
length-scatter [] row out = refl
length-scatter (place ∷ places) [] out = refl
length-scatter (none ∷ places) (d ∷ row) out = length-scatter places row out
length-scatter (some j ∷ places) (d ∷ row) out =
    length-scatter places row (put d j out) ∙ length-put d j out

-- No column goes to place `k`.
abbrev pub Free : ℕ → List (Option ℕ) → Type 0
Free k places = (i : ℕ) → get_elem? places i ≢ some (some k)

scatter-Free :
    (places : List (Option ℕ)) (row out : List PgDatum) (k : ℕ)
    → Free k places
    → get_elem? (scatter places row out) k ≡ get_elem? out k
scatter-Free [] row out k free = refl
scatter-Free (place ∷ places) [] out k free = refl
scatter-Free (none ∷ places) (d ∷ row) out k free =
    scatter-Free places row out k (λ i. free (suc i))
scatter-Free (some j ∷ places) (d ∷ row) out k free =
    scatter-Free places row (put d j out) k (λ i. free (suc i))
    ∙ put-other d j k out (λ e. free 0 (ap some (ap some e)))

-- Column `i` is the only one that goes to place `k`.
abbrev pub Only : ℕ → ℕ → List (Option ℕ) → Type 0
Only i k places = (j : ℕ) → get_elem? places j ≡ some (some k) → j ≡ i

pub scatter-Only :
    (places : List (Option ℕ)) (row out : List PgDatum) (i k : ℕ) {d : PgDatum}
    → get_elem? places i ≡ some (some k)
    → Only i k places
    → get_elem? row i ≡ some d
    → get_elem? out k ≡ some PgDatum.null
    → get_elem? (scatter places row out) k ≡ some d
scatter-Only [] row out i k here only found blank = cc
scatter-Only (place ∷ places) [] out i k here only found blank = cc
scatter-Only (none ∷ places) (d ∷ row) out zero k here only found blank = cc
scatter-Only (none ∷ places) (d ∷ row) out (suc i) k here only found blank =
    scatter-Only places row out i k here (λ j h. omega (arith, only (suc j) h)) found blank
scatter-Only (some j ∷ places) (d ∷ row) out zero k here only found blank =
    let same : j ≡ k = cc in
    scatter-Free places row (put d j out) k (λ n h. absurd (omega (arith, only (suc n) h)))
    ∙ (rw (← same) (put-same d j out (rw same blank)) ∙ found)
scatter-Only (some j ∷ places) (d ∷ row) out (suc i) k here only found blank =
    let other : j ≢ k = λ e. absurd (omega (arith, only 0 (ap some (ap some e)))) in
    scatter-Only places row (put d j out) i k here (λ n h. omega (arith, only (suc n) h)) found
      (put-other d j k out other ∙ blank)
