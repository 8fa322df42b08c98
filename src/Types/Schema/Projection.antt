-- ===== src/Types/Schema/Projection.antt =====
-- Projections of schemas, one after another.
use pg_arrow.Base.{
  ℕ, zero, suc, ◌≡◌, ap, ◌∙◌, List, [], ◌∷◌, map, Option, none, some, ok, >>=-eq-ok, unwrap,
  get_elem?,
}
use pg_arrow.Types.Schema.{PgColumn, PgSchema, project_columns, project}

-- Entry `j` of the indices.
abbrev pub index_at : List ℕ → ℕ → ℕ
index_at indices j = elim (get_elem? indices j) [ none ↦ 0 | some i ↦ i ]

module _ {E : Type 0} where
  unwrap-some : {A : Type 0} (o : Option A) {a : A} → unwrap {E = E} o ≡ ok a → o ≡ some a
  unwrap-some none h = cc
  unwrap-some (some b) h = cc

  -- A projected column is the one its index names.
  project_columns-get :
      (columns : List PgColumn) (indices : List ℕ) (chosen : List PgColumn) (j : ℕ) {c : PgColumn}
      → project_columns {E = E} columns indices ≡ ok chosen
      → get_elem? chosen j ≡ some c
      → get_elem? columns (index_at indices j) ≡ some c
  unfolding project_columns
  project_columns-get columns [] chosen j h found =
      let e : [] ≡ chosen = cc in cc (rw (← e) at found)
  project_columns-get columns (i ∷ indices) chosen j {c} h found =
      let (first, at, h') = >>=-eq-ok (unwrap (get_elem? columns i)) _ h in
      let (rest, later, h'') = >>=-eq-ok (project_columns columns indices) _ h' in
      let e : first ∷ rest ≡ chosen = cc in
      let found' : get_elem? (first ∷ rest) j ≡ some c = rw e found in
      entry first rest j found' (unwrap-some (get_elem? columns i) at)
        (λ k g. project_columns-get columns indices rest k later g)
    where
      entry :
          (first : PgColumn) (rest : List PgColumn) (k : ℕ)
          → get_elem? (first ∷ rest) k ≡ some c
          → get_elem? columns i ≡ some first
          → ((n : ℕ) → get_elem? rest n ≡ some c → get_elem? columns (index_at indices n) ≡ some c)
          → get_elem? columns (index_at (i ∷ indices) k) ≡ some c
      entry first rest zero g first_at others = first_at ∙ g
      entry first rest (suc n) g first_at others = others n g

  project_columns-compose :
      (columns chosen : List PgColumn) (outer inner : List ℕ) (final : List PgColumn)
      → project_columns {E = E} columns outer ≡ ok chosen
      → project_columns {E = E} chosen inner ≡ ok final
      → project_columns {E = E} columns (map (index_at outer) inner) ≡ ok final
  unfolding project_columns
  project_columns-compose columns chosen outer [] final h k = k
  project_columns-compose columns chosen outer (j ∷ inner) final h k =
      let (first, at, k') = >>=-eq-ok (unwrap (get_elem? chosen j)) _ k in
      let (rest, later, k'') = >>=-eq-ok (project_columns chosen inner) _ k' in
      let there =
        project_columns-get columns outer chosen j h (unwrap-some (get_elem? chosen j) at) in
      rw (there, project_columns-compose columns chosen outer inner rest h later) k''

  -- Projecting a schema and then its projection is one projection, to the outer indices that the inner
  -- ones name, where both succeed.
  pub project-compose :
      (s p q : PgSchema) (outer inner : List ℕ)
      → project {E = E} s outer ≡ ok p
      → project {E = E} p inner ≡ ok q
      → project {E = E} s (map (index_at outer) inner) ≡ ok q
  unfolding project
  project-compose s p q outer inner h k =
      let (chosen, found, h') = >>=-eq-ok (project_columns s.columns outer) _ h in
      let (final, found', k') = >>=-eq-ok (project_columns p.columns inner) _ k in
      let built : record { name = s.name; columns = chosen } ≡ p = cc in
      let same_name : s.name ≡ p.name = ap (λ t. t.name) built in
      let same : chosen ≡ p.columns = ap (λ t. t.columns) built in
      rw
        (
          project_columns-compose s.columns chosen outer inner final found (rw same found'),
          same_name,
        )
        k'
