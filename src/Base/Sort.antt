-- ===== src/Base/Sort.antt =====
-- The stable sort of Rust's `sort_by_key`, as insertion in front of greater or equal keys, for a
-- comparison that is total and transitive.
use mathlib.Core.Path.{◌≡◌}
use mathlib.Core.Logic.{inl, inr}
use mathlib.Core.Bool.{Bool, true, false}
use mathlib.Core.List.{List, [], ◌∷◌, Perm}
use mathlib.Core.List.Perm
use pg_arrow.Base.Tests.{if◌then◌else◌, Bool-cases}
use pg_arrow.Base.Lists.{All}

module _ {ℓ} {A : Type ℓ} (le : A → A → Bool) where
  unfoldable pub insert_sorted : A → List A → List A
  insert_sorted x [] = x ∷ []
  insert_sorted x (y ∷ ys) =
      let behind = y ∷ insert_sorted x ys in if le x y then x ∷ y ∷ ys else behind

  unfoldable pub sort_by : List A → List A
  sort_by [] = []
  sort_by (x ∷ xs) = insert_sorted x (sort_by xs)

  abbrev pub Sorted : List A → Type ℓ
  Sorted [] = Unit
  Sorted (x ∷ xs) = All (λ y. le x y ≡ true) xs × Sorted xs

  insert_sorted-Perm : (x : A) (xs : List A) → Perm (insert_sorted x xs) (x ∷ xs)
  unfolding insert_sorted
  insert_sorted-Perm x [] = Perm.refl (x ∷ [])
  insert_sorted-Perm x (y ∷ ys) = elim (Bool-cases (le x y)) [
    | inl e ↦ rw e (Perm.refl (x ∷ y ∷ ys))
    | inr e ↦ rw e (Perm.trans (Perm.cons y (insert_sorted-Perm x ys)) (Perm.swap x y ys))
  ]

  pub sort_by-Perm : (xs : List A) → Perm (sort_by xs) xs
  unfolding sort_by
  sort_by-Perm [] = Perm.refl []
  sort_by-Perm (x ∷ xs) =
      Perm.trans (insert_sorted-Perm x (sort_by xs)) (Perm.cons x (sort_by-Perm xs))

  insert_sorted-All {κ} :
      (P : A → Type κ) (x : A) (xs : List A) → P x → All P xs → All P (insert_sorted x xs)
  unfolding insert_sorted
  insert_sorted-All P x [] h hs = (h, hs)
  insert_sorted-All P x (y ∷ ys) h (hy, hys) = elim (Bool-cases (le x y)) [
    | inl e ↦ rw e (h, (hy, hys))
    | inr e ↦ rw e (hy, insert_sorted-All P x ys h hys)
  ]

  pub sort_by-All {κ} : (P : A → Type κ) (xs : List A) → All P xs → All P (sort_by xs)
  unfolding sort_by
  sort_by-All P [] h = tt
  sort_by-All P (x ∷ xs) (h, hs) = insert_sorted-All P x (sort_by xs) h (sort_by-All P xs hs)

  module _ (total : (x y : A) → le x y ≡ false → le y x ≡ true)
      (trans : (x y z : A) → le x y ≡ true → le y z ≡ true → le x z ≡ true) where
    All-trans :
        (x y : A) (ys : List A)
        → le x y ≡ true
        → All (λ z. le y z ≡ true) ys
        → All (λ z. le x z ≡ true) ys
    All-trans x y [] e h = tt
    All-trans x y (z ∷ zs) e (h, hs) = (trans x y z e h, All-trans x y zs e hs)

    insert_sorted-Sorted : (x : A) (xs : List A) → Sorted xs → Sorted (insert_sorted x xs)
    unfolding insert_sorted
    insert_sorted-Sorted x [] s = (tt, tt)
    insert_sorted-Sorted x (y ∷ ys) (h, s) = elim (Bool-cases (le x y)) [
      | inl e ↦ rw e ((e, All-trans x y ys e h), (h, s))
      | inr e ↦
          rw e (
            insert_sorted-All (λ z. le y z ≡ true) x ys (total x y e) h,
            insert_sorted-Sorted x ys s,
          )
    ]

    pub sort_by-Sorted : (xs : List A) → Sorted (sort_by xs)
    unfolding sort_by
    sort_by-Sorted [] = tt
    sort_by-Sorted (x ∷ xs) = insert_sorted-Sorted x (sort_by xs) (sort_by-Sorted xs)
