-- ===== src/Heap/Snapshot/Visible.antt =====
-- Which transactions a snapshot sees.
use pg_arrow.Base.{
  ℕ, ◌≤◌, ◌<◌, ◌≡◌, ◌≢◌, ◌⊎◌, ◌↔◌, inl, inr, refl, arith, true, false, Bool-cases, ◌==◌, ==_iff,
  List, [], ◌∷◌, All,
}
use pg_arrow.Heap.Snapshot.{PgSnapshot, frozen_xid, contains, xmin_visible}

absent : (xs : List ℕ) (t : ℕ) → contains xs t ≡ false → All (λ x. x ≢ t) xs
unfolding contains
absent [] t e = tt
absent (x ∷ xs) t e = elim (Bool-cases (x == t)) [
  | inl y ↦ absurd (ground (arith, y))
  | inr n ↦ ((λ same. absurd (ground (arith, n, same))), absent xs t (rw n at e))
]

unseen : (xs : List ℕ) (t : ℕ) → All (λ x. x ≢ t) xs → contains xs t ≡ false
unfolding contains
unseen [] t h = refl
unseen (x ∷ xs) t (n, h) = elim (Bool-cases (x == t)) [
  | inl y ↦ absurd (n ((==_iff x t).0 y))
  | inr m ↦ rw (m, unseen xs t h) refl
]

-- A transaction is visible exactly when it is frozen, or older than the snapshot's oldest running
-- one, or older than its end and not among the running ones.
pub xmin_visible_iff :
    (s : PgSnapshot) (t : ℕ)
    → (xmin_visible s t ≡ true)
      ↔ ((t ≤ frozen_xid) ⊎ (t < s.xmin) ⊎ ((t < s.xmax) × All (λ x. x ≢ t) s.xip))
unfolding xmin_visible
xmin_visible_iff s t = (there, back)
  where
    there :
        xmin_visible s t ≡ true
        → (t ≤ frozen_xid) ⊎ (t < s.xmin) ⊎ ((t < s.xmax) × All (λ x. x ≢ t) s.xip)
    there v = elim (Bool-cases (contains s.xip t)) [
      | inl running ↦ ground (arith, running)
      | inr gone ↦ ground (arith, gone, absent s.xip t gone)
    ]

    back :
        (t ≤ frozen_xid) ⊎ (t < s.xmin) ⊎ ((t < s.xmax) × All (λ x. x ≢ t) s.xip)
        → xmin_visible s t ≡ true
    back (inl frozen) = ground arith
    back (inr (inl old)) = ground arith
    back (inr (inr (before, gone))) = ground (arith, before, unseen s.xip t gone)
