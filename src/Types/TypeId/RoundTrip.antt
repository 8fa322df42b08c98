-- ===== src/Types/TypeId/RoundTrip.antt =====
-- `try_from` and `oid` are inverse to each other.
use pg_arrow.Base.{
  ℕ, List, [], ◌∷◌, ◌≡◌, ◌≢◌, refl, arith, Result, ok, err, panic, ◌↔◌, ◌==◌, ==_iff, Bool-cases,
  inl, inr, All,
}
use mathlib.Core.Path.{subst}
use pg_arrow.Types.Defs.{PgTypeId}
use pg_arrow.Types.TypeId.Oids.{oid, known, match_oid, try_from}

-- Every type is recovered from its OID.
pub try_from-oid : (t : PgTypeId) → try_from (oid t) ≡ ok t
unfolding try_from oid
try_from-oid PgTypeId.bool = refl
try_from-oid _ = refl

abbrev IsArm : ℕ × PgTypeId → Type 0
IsArm (n, t) = oid t ≡ n

known-IsArm : All IsArm known
unfolding known oid
known-IsArm = omega arith

match_oid-oid :
    (arms : List (ℕ × PgTypeId)) (n : ℕ) (t : PgTypeId)
    → All IsArm arms
    → match_oid arms n ≡ ok t
    → oid t ≡ n
unfolding match_oid
match_oid-oid [] n t h e = cc
match_oid-oid ((m, s) ∷ arms) n t (h, hs) e = elim (Bool-cases (m == n)) [
  | inl y ↦
      let k : ◌≡◌ {A = Result ℕ PgTypeId} (ok s) (ok t) = rw y at e in cc (k, (==_iff m n).0 y)
  | inr y ↦ match_oid-oid arms n t hs (rw y at e)
]

-- `try_from` succeeds with a type exactly at that type's OID.
pub try_from_iff : (n : ℕ) (t : PgTypeId) → (try_from n ≡ ok t) ↔ (oid t ≡ n)
try_from_iff n t = (
  λ e. unfold try_from in match_oid-oid known n t known-IsArm e,
  λ e. subst (λ (k : ℕ). try_from k ≡ ok t) e (try_from-oid t),
)

match_oid-err : (arms : List (ℕ × PgTypeId)) (n k : ℕ) → match_oid arms n ≡ err k → k ≡ n
unfolding match_oid
match_oid-err [] n k e = cc
match_oid-err ((m, s) ∷ arms) n k e = ground (arith, match_oid-err arms n k)

match_oid-ne-panic : (arms : List (ℕ × PgTypeId)) (n : ℕ) → match_oid arms n ≢ panic
unfolding match_oid
match_oid-ne-panic [] n e = cc
match_oid-ne-panic ((m, s) ∷ arms) n e = ground (arith, match_oid-ne-panic arms n)

-- On an OID of no type, and on no other, `try_from` returns that OID as its error.
pub try_from-unknown_iff : (n : ℕ) → (try_from n ≡ err n) ↔ (¬ ((t : PgTypeId) × (oid t ≡ n)))
try_from-unknown_iff n = (known_only, unknown)
  where
    known_only : try_from n ≡ err n → ¬ ((t : PgTypeId) × (oid t ≡ n))
    known_only e (t, o) = let p : try_from n ≡ ok t = (try_from_iff n t).1 o in cc

    unknown : ¬ ((t : PgTypeId) × (oid t ≡ n)) → try_from n ≡ err n
    unknown h = go (try_from n) refl
      where
        go : (r : Result ℕ PgTypeId) → try_from n ≡ r → try_from n ≡ err n
        go (ok t) e = absurd (h (t, (try_from_iff n t).0 e))
        go (err k) e = let same : k ≡ n = unfold try_from in match_oid-err known n k e in cc
        go panic e = absurd (unfold try_from in match_oid-ne-panic known n e)
