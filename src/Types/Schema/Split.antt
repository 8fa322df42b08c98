-- ===== src/Types/Schema/Split.antt =====
-- A list with what a filter keeps of it and what it leaves out, in any order.
use mathlib.Core.List.{Perm, perm_middle, append_assoc}
use mathlib.Core.List.Perm
use mathlib.Core.Path.{subst}
use pg_arrow.Base.{List, [], ◌∷◌, ◌++◌, All, All-append}

module _ {A : Type 0} where
  -- `kept` is of `xs`, and the rest of `xs` is what does not have the property.
  abbrev pub Split : (A → Type 0) → List A → List A → Type 0
  Split P kept xs = (others : List A) × All (λ x. ¬ P x) others × Perm (kept ++ others) xs

  pub keep-Split :
      (P : A → Type 0) (x : A) (kept xs : List A) → Split P kept xs → Split P (x ∷ kept) (x ∷ xs)
  keep-Split P x kept xs (others, out, p) = (others, out, Perm.cons x p)

  pub leave-Split :
      (P : A → Type 0) (x : A) (kept xs : List A) → ¬ P x → Split P kept xs → Split P kept (x ∷ xs)
  leave-Split P x kept xs fails (others, out, p) =
      (x ∷ others, (fails, out), Perm.trans (perm_middle kept others) (Perm.cons x p))

  pub Perm-Split :
      (P : A → Type 0) (sorted kept xs : List A)
      → Perm sorted kept
      → Split P kept xs
      → Split P sorted xs
  Perm-Split P sorted kept xs q (others, out, p) =
      (others, out, Perm.trans (Perm.append_right others q) p)

  All-not :
      (P Q : A → Type 0) (xs : List A)
      → ((x : A) → Q x → P x)
      → All (λ x. ¬ P x) xs
      → All (λ x. ¬ Q x) xs
  All-not P Q [] h out = tt
  All-not P Q (x ∷ xs) h (fails, out) = (λ q. fails (h x q), All-not P Q xs h out)

  -- A filter of what is left by another.
  pub both-Split :
      (P Q : A → Type 0) (kept mid xs : List A)
      → Split Q mid xs
      → All Q mid
      → Split P kept mid
      → Split (λ x. Q x × P x) kept xs
  both-Split P Q kept mid xs (far, out, p) all (near, out', p') = (
    near ++ far,
    All-append (λ x. ¬ (Q x × P x)) near far (All-not P (λ x. Q x × P x) near (λ x (q, h). h) out')
        (All-not Q (λ x. Q x × P x) far (λ x (q, h). q) out),
    Perm.trans
        (subst (λ (ys : List A). Perm ys ((kept ++ near) ++ far)) (append_assoc kept near far)
          (Perm.refl ((kept ++ near) ++ far)))
        (Perm.trans (Perm.append_right far p') p),
  )
