-- ===== src/Table/Databases/Walk.antt =====
-- The loops of `list_databases` over the rows that the iterator over the relation gives.
use mathlib.Core.Path.{subst}
use pg_arrow.Base.{
  ℕ, zero, suc, ◌+◌, ◌%◌, ◌^◌, ◌≤◌, ◌<◌, ◌≡◌, refl, arith, ap, sym, ◌∙◌, inl, inr, List, [], ◌∷◌,
  ◌++◌, All, Option, some, true, false, Result, ok, err, panic, ◌>>=◌, ◌==◌, length, get_elem?,
  get_elem?-in, Bool-cases,
}
use pg_arrow.Types.Catalog.Database.{PgDatabase}
use pg_arrow.File.Error.{PgError, generic}
use pg_arrow.File.Reader.{FileSystem}
use pg_arrow.File.Reader.Pages.{PageReader, get_page_by_index}
use pg_arrow.File.Scan.Pages.{
  IsPage, add_row, slot_rows, page_rows, rows_of, Serves, visit_all, get_row_data-ne-panic,
}
use pg_arrow.Heap.Page.{HeapPageData, lp_flags, lp_normal, get_row_data}
use pg_arrow.Heap.Page.Rows.{get_row_data-Accounts}
use pg_arrow.Heap.Tuple.{HeapTupleData}
use pg_arrow.Table.Databases.{
  Listed, after_slots, list_pointer, after_page, push_tuple, list_slot, list_slots, list_pages,
}

abbrev pub visit : List PgDatabase → HeapTupleData → Listed
visit out t = push_tuple out (ok t)

bind_same :
    {A B : Type 0} (r : Result PgError A) (f g : A → Result PgError B)
    → ((a : A) → f a ≡ g a)
    → (r >>= f) ≡ (r >>= g)
bind_same (ok a) f g h = h a
bind_same (err e) f g h = refl
bind_same panic f g h = refl

pub bind_bind :
    {A B C : Type 0} (r : Result PgError A) (f : A → Result PgError B) (g : B → Result PgError C)
    → ((r >>= f) >>= g) ≡ (r >>= λ a. f a >>= g)
bind_bind (ok a) f g = refl
bind_bind (err e) f g = refl
bind_bind panic f g = refl

visit_all-append :
    (xs ys : List HeapTupleData) (out : List PgDatabase)
    → visit_all visit out (xs ++ ys) ≡ (visit_all visit out xs >>= λ a. visit_all visit a ys)
unfolding visit_all
visit_all-append [] ys out = refl
visit_all-append (x ∷ xs) ys out =
    bind_same (visit out x) _ _ (visit_all-append xs ys)
    ∙ sym (bind_bind (visit out x) (λ a. visit_all visit a xs) (λ a. visit_all visit a ys))

visit_slot :
    (r : Result PgError HeapTupleData) (out : List PgDatabase) (rows : List HeapTupleData)
    (next : List PgDatabase → Listed)
    → ((a : List PgDatabase) → next a ≡ visit_all visit a rows)
    → (¬ r ≡ panic)
    → (push_tuple out r >>= next) ≡ visit_all visit out (add_row r rows)
unfolding push_tuple add_row visit_all
visit_slot (ok t) out rows next h safe = bind_same (push_tuple out (ok t)) _ _ h
visit_slot (err e) out rows next h safe = h out
visit_slot panic out rows next h safe = absurd (safe refl)

-- A slot that is not `LP_NORMAL`.
get_row_data-other :
    (page : HeapPageData) (i lp : ℕ)
    → get_elem? page.lp_items i ≡ some lp
    → (lp_flags lp == lp_normal) ≡ false
    → (e : PgError) × (get_row_data page i ≡ err e)
get_row_data-other page i lp found other = elim (get_row_data-Accounts page i) [
  | inl (out, refused) ↦ (generic, refused)
  | inr (lp', found', inl (dead, refused)) ↦ (_, refused)
  | inr (lp', found', inr (normal, read)) ↦
      let same : lp' ≡ lp = cc in
      let one : lp_flags lp ≡ lp_normal = sym (ap lp_flags same) ∙ normal in
      let yes : (lp_flags lp == lp_normal) ≡ true = ap (λ (q : ℕ). q == lp_normal) one in cc
]

-- A slot that is not `LP_NORMAL` is an error of `get_row_data`.
list_slot-push_tuple :
    (page : HeapPageData) (out : List PgDatabase) (i : ℕ)
    → IsPage page
    → i < page.lp_num
    → list_slot page out i ≡ push_tuple out (get_row_data page i)
unfolding list_slot list_pointer push_tuple
list_slot-push_tuple page out i (k, small) h =
    let (lp, found) = get_elem?-in page.lp_items i (omega arith) in
    let e : i % 2 ^ 16 ≡ i = omega arith in
    ap (list_pointer page out i) found ∙ elim (Bool-cases (lp_flags lp == lp_normal)) [
      | inl normal ↦
          rw (normal, list_pointer) (ap (λ (q : ℕ). push_tuple out (get_row_data page q)) e)
      | inr other ↦
          rw (other, list_pointer)
            (sym (ap (push_tuple out) (get_row_data-other page i lp found other).1))
    ]

list_slots-slot_rows :
    (page : HeapPageData) (n i : ℕ) (out : List PgDatabase)
    → IsPage page
    → i + n ≤ page.lp_num
    → list_slots page out i n ≡ visit_all visit out (slot_rows page i n)
unfolding list_slots slot_rows visit_all
list_slots-slot_rows page zero i out good h = refl
list_slots-slot_rows page (suc n) i out good h =
    ap (λ (r : Listed). r >>= λ a. list_slots page a (suc i) n)
      (list_slot-push_tuple page out i good (omega arith))
    ∙ visit_slot (get_row_data page i) out (slot_rows page (suc i) n) _
        (λ a. list_slots-slot_rows page n (suc i) a good (omega arith))
        (get_row_data-ne-panic page i)

after_slots-same :
    (r : Listed) (next : List PgDatabase → Option Listed) (f : List PgDatabase → Listed)
    → ((a : List PgDatabase) → next a ≡ some (f a))
    → after_slots next r ≡ some (r >>= f)
unfolding after_slots
after_slots-same (ok a) next f h = h a
after_slots-same (err e) next f h = refl
after_slots-same panic next f h = refl

pub list_pages-rows_of :
    (fs : FileSystem) (pages : List HeapPageData) (fuel i : ℕ) (reader : PageReader)
    (out : List PgDatabase)
    → Serves (get_page_by_index fs) reader i pages
    → All IsPage pages
    → length pages < fuel
    → list_pages fs fuel reader i out ≡ some (visit_all visit out (rows_of pages))
unfolding list_pages after_page page_rows rows_of visit_all
list_pages-rows_of fs [] (suc fuel) i reader out (e, s', ended) all enough =
    ap (after_page (λ r o. list_pages fs fuel r (i + 1) o) out) ended
list_pages-rows_of fs (page ∷ pages) (suc fuel) i reader out (s', given, rest) (good, all) enough =
    let next : suc i ≡ i + 1 = omega arith in
    ap (after_page (λ r o. list_pages fs fuel r (i + 1) o) out) given
    ∙ (after_slots-same (list_slots page out 0 page.lp_num) _
          (λ a. visit_all visit a (rows_of pages))
          (λ a.
            list_pages-rows_of fs pages fuel (i + 1) s' a
              (subst (λ (q : ℕ). Serves (get_page_by_index fs) s' q pages) next rest) all
              (omega arith))
        ∙ ap some (
            ap (λ (r : Listed). r >>= λ a. visit_all visit a (rows_of pages))
              (list_slots-slot_rows page page.lp_num 0 out good (omega arith))
            ∙ sym (visit_all-append (page_rows page) (rows_of pages) out)))
list_pages-rows_of fs pages zero i reader out served all enough = absurd (omega arith)
