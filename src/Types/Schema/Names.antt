-- ===== src/Types/Schema/Names.antt =====
-- The equality of names.
use pg_arrow.Base.{◌≡◌, ◌≢◌, refl, Bool, true, false, ◌&&◌, Bytes, [], ◌∷◌, ◌==◌, ==_iff, ==_self}
use pg_arrow.Types.Schema.{bytes_eq}

pub and-true : (a b : Bool) → (a && b) ≡ true → (a ≡ true) × (b ≡ true)
and-true true b h = (refl, h)
and-true false b h = cc

pub bytes_eq-same : (xs ys : Bytes) → bytes_eq xs ys ≡ true → xs ≡ ys
unfolding bytes_eq
bytes_eq-same [] [] h = refl
bytes_eq-same [] (y ∷ ys) h = cc
bytes_eq-same (x ∷ xs) [] h = cc
bytes_eq-same (x ∷ xs) (y ∷ ys) h =
    let (here, later) = and-true (x == y) (bytes_eq xs ys) h in
    let head : x ≡ y = (==_iff x y).0 here in let tail : xs ≡ ys = bytes_eq-same xs ys later in cc

pub bytes_eq_self : (xs : Bytes) → bytes_eq xs xs ≡ true
unfolding bytes_eq
bytes_eq_self [] = refl
bytes_eq_self (x ∷ xs) = rw (==_self x) (bytes_eq_self xs)

pub bytes_eq-other : (xs ys : Bytes) → bytes_eq xs ys ≡ false → xs ≢ ys
bytes_eq-other xs ys h e = let t : bytes_eq xs xs ≡ true = bytes_eq_self xs in cc
