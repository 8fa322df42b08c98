-- ===== src/Base/Lists.antt =====
-- Lists measured and indexed by native numbers, and the slices that Rust takes of them.
use Prim.Native.Nat.{ℕ, zero, suc, ◌+◌, ◌-◌, ◌≤◌, ◌<◌, min}
use mathlib.Core.Path.{◌≡◌, refl, ap, subst}
use mathlib.Core.Logic.{inl, inr}
use mathlib.Core.Bool.{◌&&◌}
use mathlib.Core.List.{List, [], ◌∷◌, ◌++◌, map}
use mathlib.Core.Option.{Option, none, some}
use native.Mathlib.Omega.{arith}
use pg_arrow.Base.Tests.{leb, if◌then◌else◌, le→leb, lt→leb, leb→le, Bool-cases}

module _ {ℓ} {A : Type ℓ} where
  abbrev pub length : List A → ℕ
  length [] = 0
  length (x ∷ xs) = suc (length xs)

  -- `slice.get(i)`
  abbrev pub get_elem? : List A → ℕ → Option A
  get_elem? [] i = none
  get_elem? (x ∷ xs) zero = some x
  get_elem? (x ∷ xs) (suc i) = get_elem? xs i

  abbrev pub set : List A → ℕ → A → List A
  set [] i v = []
  set (x ∷ xs) zero v = v ∷ xs
  set (x ∷ xs) (suc i) v = x ∷ set xs i v

  abbrev pub take : ℕ → List A → List A
  take zero xs = []
  take (suc n) [] = []
  take (suc n) (x ∷ xs) = x ∷ take n xs

  abbrev pub drop : ℕ → List A → List A
  drop zero xs = xs
  drop (suc n) [] = []
  drop (suc n) (x ∷ xs) = drop n xs

  abbrev pub replicate : ℕ → A → List A
  replicate zero a = []
  replicate (suc n) a = a ∷ replicate n a

  abbrev pub All {κ} : (A → Type κ) → List A → Type κ
  All P [] = Unit {κ}
  All P (x ∷ xs) = P x × All P xs

module _ {ℓ} {A : Type ℓ} where
  -- `xs[a..b]` where it is in range.
  abbrev pub sub_list : List A → ℕ → ℕ → List A
  sub_list xs a b = take (b - a) (drop a xs)

  -- `xs.get(a..b)`
  unfoldable pub get_range : List A → ℕ → ℕ → Option (List A)
  get_range xs a b = if leb a b && leb b (length xs) then some (sub_list xs a b) else none

  pub get_range-in :
      (xs : List A) (a b : ℕ) → a ≤ b → b ≤ length xs → get_range xs a b ≡ some (sub_list xs a b)
  unfolding get_range
  get_range-in xs a b p q = rw (le→leb a b p) (rw (le→leb b (length xs) q))

  pub get_range-out : (xs : List A) (a b : ℕ) → length xs < b → get_range xs a b ≡ none
  unfolding get_range
  get_range-out xs a b p = elim (Bool-cases (leb a b)) [
    | inl e ↦ rw e (rw (lt→leb b (length xs) p))
    | inr e ↦ rw e
  ]

  pub get_range-some :
      (xs : List A) (a b : ℕ) {ys : List A}
      → get_range xs a b ≡ some ys
      → (a ≤ b) × (b ≤ length xs) × (ys ≡ sub_list xs a b)
  unfolding get_range
  get_range-some xs a b {ys} h = elim (Bool-cases (leb a b)) [
    | inl e ↦ elim (Bool-cases (leb b (length xs))) [
      | inl d ↦ (
        leb→le a b e,
        leb→le b (length xs) d,
        let k : some (sub_list xs a b) ≡ some ys = rw (e, d) at h in cc,
      )
      | inr d ↦ let k : none ≡ some ys = rw (e, d) at h in cc
    ]
    | inr e ↦ let k : none ≡ some ys = rw e at h in cc
  ]

  pub length-append : (xs ys : List A) → length (xs ++ ys) ≡ length xs + length ys
  length-append [] ys = omega arith
  length-append (x ∷ xs) ys = omega (arith, length-append xs ys)

  pub length-take : (n : ℕ) (xs : List A) → length (take n xs) ≡ min n (length xs)
  length-take zero xs = omega arith
  length-take (suc n) [] = omega arith
  length-take (suc n) (x ∷ xs) = omega (arith, length-take n xs)

  pub length-drop : (n : ℕ) (xs : List A) → length (drop n xs) ≡ length xs - n
  length-drop zero xs = omega arith
  length-drop (suc n) [] = omega arith
  length-drop (suc n) (x ∷ xs) = omega (arith, length-drop n xs)

  pub length-replicate : (n : ℕ) (a : A) → length (replicate n a) ≡ n
  length-replicate zero a = refl
  length-replicate (suc n) a = ap suc (length-replicate n a)

  pub length-map {κ} : {B : Type κ} (f : A → B) (xs : List A) → length (map f xs) ≡ length xs
  length-map f [] = refl
  length-map f (x ∷ xs) = ap suc (length-map f xs)

  pub length-set : (xs : List A) (i : ℕ) (v : A) → length (set xs i v) ≡ length xs
  length-set [] i v = refl
  length-set (x ∷ xs) zero v = refl
  length-set (x ∷ xs) (suc i) v = ap suc (length-set xs i v)

  pub take_all : (n : ℕ) (xs ys : List A) → length xs ≡ n → take n (xs ++ ys) ≡ xs
  take_all zero [] ys h = refl
  take_all zero (x ∷ xs) ys h = absurd (omega arith)
  take_all (suc n) [] ys h = absurd (omega arith)
  take_all (suc n) (x ∷ xs) ys h = ap (◌∷◌ x) (take_all n xs ys (omega arith))

  pub take_whole : (n : ℕ) (xs : List A) → length xs ≤ n → take n xs ≡ xs
  take_whole zero [] h = refl
  take_whole zero (x ∷ xs) h = absurd (omega arith)
  take_whole (suc n) [] h = refl
  take_whole (suc n) (x ∷ xs) h = ap (◌∷◌ x) (take_whole n xs (omega arith))

  pub drop_all : (n : ℕ) (xs ys : List A) → length xs ≡ n → drop n (xs ++ ys) ≡ ys
  drop_all zero [] ys h = refl
  drop_all zero (x ∷ xs) ys h = absurd (omega arith)
  drop_all (suc n) [] ys h = absurd (omega arith)
  drop_all (suc n) (x ∷ xs) ys h = drop_all n xs ys (omega arith)

  pub drop-drop : (a b : ℕ) (xs : List A) → drop a (drop b xs) ≡ drop (b + a) xs
  drop-drop a zero xs = let e : 0 + a ≡ a = omega arith in rw e
  drop-drop zero (suc b) [] = let e : suc b + 0 ≡ suc b = omega arith in rw e
  drop-drop (suc a) (suc b) [] = let e : suc b + suc a ≡ suc (b + suc a) = omega arith in rw e
  drop-drop a (suc b) (x ∷ xs) =
      let e : suc b + a ≡ suc (b + a) = omega arith in rw e (drop-drop a b xs)

  pub length-sub_list :
      (xs : List A) (a b : ℕ) → a ≤ b → b ≤ length xs → length (sub_list xs a b) ≡ b - a
  length-sub_list xs a b p q = omega (arith, length-take (b - a) (drop a xs), length-drop a xs)

  pub get_elem?-lt : (xs : List A) (i : ℕ) {v : A} → get_elem? xs i ≡ some v → i < length xs
  get_elem?-lt [] i h = cc
  get_elem?-lt (x ∷ xs) zero h = omega arith
  get_elem?-lt (x ∷ xs) (suc i) h = omega (arith, get_elem?-lt xs i h)

  pub get_elem?-in : (xs : List A) (i : ℕ) → i < length xs → (v : A) × (get_elem? xs i ≡ some v)
  get_elem?-in [] i h = absurd (omega arith)
  get_elem?-in (x ∷ xs) zero h = (x, refl)
  get_elem?-in (x ∷ xs) (suc i) h = get_elem?-in xs i (omega arith)

  pub get_elem?-append_length :
      (xs ys : List A) (i : ℕ) → get_elem? (xs ++ ys) (length xs + i) ≡ get_elem? ys i
  get_elem?-append_length [] ys i = let e : 0 + i ≡ i = omega arith in rw e
  get_elem?-append_length (x ∷ xs) ys i =
      let e : suc (length xs) + i ≡ suc (length xs + i) = omega arith in
      rw e (get_elem?-append_length xs ys i)

module _ {ℓ κ} {A : Type ℓ} (P : A → Type κ) where
  pub All-get_elem? : (xs : List A) (i : ℕ) (v : A) → All P xs → get_elem? xs i ≡ some v → P v
  All-get_elem? [] i v h e = cc
  All-get_elem? (x ∷ xs) zero v (h, hs) e = subst P (cc) h
  All-get_elem? (x ∷ xs) (suc i) v (h, hs) e = All-get_elem? xs i v hs e

  pub All-take : (n : ℕ) (xs : List A) → All P xs → All P (take n xs)
  All-take zero xs h = tt
  All-take (suc n) [] h = tt
  All-take (suc n) (x ∷ xs) (h, hs) = (h, All-take n xs hs)

  pub All-drop : (n : ℕ) (xs : List A) → All P xs → All P (drop n xs)
  All-drop zero xs h = h
  All-drop (suc n) [] h = tt
  All-drop (suc n) (x ∷ xs) (h, hs) = All-drop n xs hs

  pub All-append : (xs ys : List A) → All P xs → All P ys → All P (xs ++ ys)
  All-append [] ys h k = k
  All-append (x ∷ xs) ys (h, hs) k = (h, All-append xs ys hs k)
