-- ===== src/Table/Rows/Positions.antt =====
-- The table of places that `decode_row_projected` builds from a projection.
use native.Mathlib.Decide.{ℕ_discrete}
use pg_arrow.Base.{
  ℕ, zero, suc, ◌+◌, ◌≤◌, ◌<◌, ◌≡◌, ◌≢◌, ◌⊎◌, inl, inr, refl, arith, sym, ap, ◌∙◌, List, [], ◌∷◌,
  Option, none, some, All, length, length-set, get_elem?, set, replicate, lt→leb,
}
use pg_arrow.Table.Rows.Scatter.{get_elem?-set_same, get_elem?-set_other, Only}
use pg_arrow.Table.Rows.{first_out_of, max_index, fill_positions}

-- No index stands in the projection twice.
abbrev pub Distinct : List ℕ → Type 0
Distinct [] = Unit
Distinct (c ∷ projection) = All (λ i. i ≢ c) projection × Distinct projection

pub length-fill_positions :
    (positions : List (Option ℕ)) (o : ℕ) (projection : List ℕ)
    → length (fill_positions positions o projection) ≡ length positions
unfolding fill_positions
length-fill_positions positions o [] = refl
length-fill_positions positions o (c ∷ projection) =
    length-fill_positions (set positions c (some o)) (o + 1) projection
    ∙ length-set positions c (some o)

-- An entry of an updated list is the old one, or the new one at its index.
get_elem?-set_cases :
    {A : Type 0} (xs : List A) (c i : ℕ) (v : A) {w : A}
    → get_elem? (set xs c v) i ≡ some w
    → (get_elem? xs i ≡ some w) ⊎ ((c ≡ i) × (v ≡ w))
get_elem?-set_cases [] c i v h = cc
get_elem?-set_cases (x ∷ xs) zero zero v h = inr (refl, cc)
get_elem?-set_cases (x ∷ xs) zero (suc i) v h = inl h
get_elem?-set_cases (x ∷ xs) (suc c) zero v h = inl h
get_elem?-set_cases (x ∷ xs) (suc c) (suc i) v h = elim (get_elem?-set_cases xs c i v h) [
  | inl old ↦ inl old
  | inr (same, new) ↦ inr (ap suc same, new)
]

-- A place is one that was there, or that of the index in the projection.
fill_positions-cases :
    (positions : List (Option ℕ)) (o : ℕ) (projection : List ℕ) (i k : ℕ)
    → get_elem? (fill_positions positions o projection) i ≡ some (some k)
    → (get_elem? positions i ≡ some (some k))
      ⊎ ((n : ℕ) × (k ≡ o + n) × (get_elem? projection n ≡ some i))
unfolding fill_positions
fill_positions-cases positions o [] i k h = inl h
fill_positions-cases positions o (c ∷ projection) i k h =
    elim (fill_positions-cases (set positions c (some o)) (o + 1) projection i k h) [
      | inl before ↦ elim (get_elem?-set_cases positions c i (some o) before) [
        | inl old ↦ inl old
        | inr (same, new) ↦ let e : o ≡ k = cc in inr (0, omega arith, ap some same)
      ]
      | inr (n, e, found) ↦ inr (suc n, omega arith, found)
    ]

-- An index that does not stand in the projection keeps its place.
fill_positions-other :
    (positions : List (Option ℕ)) (o : ℕ) (projection : List ℕ) (i : ℕ)
    → All (λ j. j ≢ i) projection
    → get_elem? (fill_positions positions o projection) i ≡ get_elem? positions i
unfolding fill_positions
fill_positions-other positions o [] i h = refl
fill_positions-other positions o (c ∷ projection) i (h, hs) =
    fill_positions-other (set positions c (some o)) (o + 1) projection i hs
    ∙ get_elem?-set_other positions c i (some o) h

-- The index in entry `n` of the projection goes to place `n`.
pub fill_positions-place :
    (positions : List (Option ℕ)) (o : ℕ) (projection : List ℕ) (n i : ℕ) {p : Option ℕ}
    → Distinct projection
    → get_elem? projection n ≡ some i
    → get_elem? positions i ≡ some p
    → get_elem? (fill_positions positions o projection) i ≡ some (some (o + n))
unfolding fill_positions
fill_positions-place positions o [] n i d found room = cc
fill_positions-place positions o (c ∷ projection) zero i {p} (fresh, d) found room =
    let same : c ≡ i = cc in
    let here : get_elem? positions c ≡ some p = rw same room in
    rw (← same) (
      fill_positions-other (set positions c (some o)) (o + 1) projection c fresh
      ∙ get_elem?-set_same positions c (some o) here
      ∙ ap some (ap some (omega arith)))
fill_positions-place positions o (c ∷ projection) (suc n) i (fresh, d) found room =
    let (q, still) = room_after positions c i (some o) room in
    fill_positions-place (set positions c (some o)) (o + 1) projection n i d found still
    ∙ ap some (ap some (omega arith))
  where
    room_after :
        (xs : List (Option ℕ)) (c i : ℕ) (v : Option ℕ) {p : Option ℕ}
        → get_elem? xs i ≡ some p
        → (q : Option ℕ) × (get_elem? (set xs c v) i ≡ some q)
    room_after xs c i v {p} h = elim (ℕ_discrete c i) [
      | yes same ↦ (v, rw same (get_elem?-set_same xs i v h))
      | no other ↦ (p, get_elem?-set_other xs c i v other ∙ h)
    ]

pub get_elem?-replicate :
    {A : Type 0} (n i : ℕ) (v : A) → i < n → get_elem? (replicate n v) i ≡ some v
get_elem?-replicate zero i v h = absurd (omega arith)
get_elem?-replicate (suc n) zero v h = refl
get_elem?-replicate (suc n) (suc i) v h = get_elem?-replicate n i v (omega arith)

abbrev unset : Option ℕ
unset = none

no_place : (n i k : ℕ) → get_elem? (replicate n unset) i ≢ some (some k)
no_place zero i k h = cc
no_place (suc n) zero k h = cc
no_place (suc n) (suc i) k h = no_place n i k h

-- In the whole table, the index of entry `n` is the only one at place `n`.
pub fill_positions-Only :
    (size : ℕ) (projection : List ℕ) (n i : ℕ)
    → get_elem? projection n ≡ some i
    → Only i n (fill_positions (replicate size none) 0 projection)
fill_positions-Only size projection n i found j h =
    elim (fill_positions-cases (replicate size none) 0 projection j n h) [
      | inl before ↦ absurd (no_place size j n before)
      | inr (m, e, there) ↦
          let same : m ≡ n = omega arith in
          let there' : get_elem? projection n ≡ some j = rw same at there in
          let both : some j ≡ some i = sym there' ∙ found in cc
    ]

pub max_index-le :
    (projection : List ℕ) (n i : ℕ) → get_elem? projection n ≡ some i → i ≤ max_index projection
unfolding max_index
max_index-le [] n i h = cc
max_index-le (c ∷ projection) zero i h = let e : c ≡ i = cc in ground arith
max_index-le (c ∷ projection) (suc n) i h = let l = max_index-le projection n i h in ground arith

pub max_index-lt :
    (size c : ℕ) (projection : List ℕ)
    → All (λ i. i < size) (c ∷ projection)
    → max_index (c ∷ projection) < size
unfolding max_index
max_index-lt size c [] (h, hs) = ground arith
max_index-lt size c (d ∷ projection) (h, hs) =
    let l = max_index-lt size d projection hs in ground arith

pub first_out_of-in :
    (size : ℕ) (projection : List ℕ)
    → All (λ i. i < size) projection
    → first_out_of size projection ≡ none
unfolding first_out_of
first_out_of-in size [] h = refl
first_out_of-in size (i ∷ projection) (h, hs) =
    rw (lt→leb size i h) (first_out_of-in size projection hs)
