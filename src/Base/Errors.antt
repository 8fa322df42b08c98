-- ===== src/Base/Errors.antt =====
-- Rust's `Result`, with a third outcome for the code's panics (a failed `unwrap`, an index out of
-- range), which no caller in the repository catches.
use mathlib.Core.Path.{◌≡◌, refl}
use mathlib.Core.Logic.{◌⊎◌, inl, inr}
use mathlib.Core.Option.{Option, none, some}

pub data Result {ℓ κ} (E : Type ℓ) (A : Type κ) : Type (ℓ ⊔ κ) where
  ok : A → Result E A
  err : E → Result E A
  panic : Result E A

infixl 5 ◌>>=◌
abbrev pub ◌>>=◌ {ℓ κ μ} :
    {E : Type ℓ} {A : Type κ} {B : Type μ} → Result E A → (A → Result E B) → Result E B
ok a >>= f = f a
err e >>= f = err e
panic >>= f = panic

module _ {ℓ κ} {E : Type ℓ} {A : Type κ} where
  -- `option.ok_or(e)?`
  abbrev pub ok_or : Option A → E → Result E A
  ok_or none e = err e
  ok_or (some a) e = ok a

  -- `option.unwrap()`
  abbrev pub unwrap : Option A → Result E A
  unwrap none = panic
  unwrap (some a) = ok a

  -- `result.map_err(f)`
  abbrev pub map_err {μ} : {F : Type μ} → (E → F) → Result E A → Result F A
  map_err f (ok a) = ok a
  map_err f (err e) = err (f e)
  map_err f panic = panic

  -- Inversion of a successful bind.
  pub >>=-eq-ok {μ} :
      {B : Type μ} (action : Result E A) (next : A → Result E B) {b : B}
      → (action >>= next) ≡ ok b
      → (v : A) × (action ≡ ok v) × (next v ≡ ok b)
  >>=-eq-ok (ok v) next h = (v, refl, h)
  >>=-eq-ok (err e) next h = cc
  >>=-eq-ok panic next h = cc

  pub map_err-eq-ok {μ} :
      {F : Type μ} (next : E → F) (action : Result E A) {v : A}
      → map_err next action ≡ ok v
      → action ≡ ok v
  map_err-eq-ok next (ok v) h = cc
  map_err-eq-ok next (err e) h = cc
  map_err-eq-ok next panic h = cc

  pub >>=-eq-panic {μ} :
      {B : Type μ} (action : Result E A) (next : A → Result E B)
      → (action >>= next) ≡ panic
      → (action ≡ panic) ⊎ ((v : A) × (action ≡ ok v) × (next v ≡ panic))
  >>=-eq-panic (ok v) next h = inr (v, refl, h)
  >>=-eq-panic (err e) next h = cc
  >>=-eq-panic panic next h = inl refl
