-- ===== src/File/Scan/Visits.antt =====
-- The loop over the rows of a relation against the pages that are there.
use Prim.Native.Nat.{max}
use mathlib.Core.Path.{subst}
use native.Mathlib.Decide.{dec_lt}
use pg_arrow.Base.{
  ℕ, zero, suc, ◌+◌, ◌-◌, ◌^◌, ◌≤◌, ◌<◌, ◌≡◌, refl, arith, ap, sym, ◌∙◌, List, [], ◌∷◌, ◌++◌, All,
  none, some, Result, ok, err, panic, ◌>>=◌, length, leb, le→leb, lt→leb, true, false,
  if◌then◌else◌,
}
use pg_arrow.File.Error.{PgError}
use pg_arrow.Heap.Tuple.{block_number, ItemPointerData, HeapTupleData}
use pg_arrow.Heap.Page.{HeapPageData, get_row_data}
use pg_arrow.File.Scan.Pages.{
  IsPage, add_row, slot_rows, page_rows, rows_of, rounds, Serves, visit_all, get_row_data-empty,
  get_row_data-ne-panic, next_block-suc,
}
use pg_arrow.File.Scan.{
  PageRowIter, into_iter, next_tid, first_tid, page_start, emit, at_slot, turn_page, on_page,
  first_page, round, Looped, visit_row, after_round, for_each_row,
}

add_row-append :
    (r : Result PgError HeapTupleData) (xs ys : List HeapTupleData)
    → add_row r xs ++ ys ≡ add_row r (xs ++ ys)
unfolding add_row
add_row-append (ok row) xs ys = refl
add_row-append (err e) xs ys = refl
add_row-append panic xs ys = refl

module _ {S A : Type 0} (get_page : S → ℕ → Result PgError HeapPageData × S)
    (visit : A → HeapTupleData → Result PgError A) where
  -- The loop from this state of the iterator on visits these rows.
  abbrev Visits : ℕ → PageRowIter S → List HeapTupleData → Type 0
  Visits fuel iter rows =
      (a : A) → for_each_row get_page visit fuel iter a ≡ some (visit_all visit a rows)

  abbrev on : S → HeapPageData → ItemPointerData → PageRowIter S
  on reader page tid = record {
    page_reader = reader;
    current_row_info = some tid;
    current_page = some page;
  }

  visit_row-bind :
      (rest : A → Looped get_page visit) (r : Result PgError A) (rows : List HeapTupleData)
      → ((a : A) → rest a ≡ some (visit_all visit a rows))
      → visit_row get_page visit rest r ≡ some (r >>= λ a. visit_all visit a rows)
  unfolding visit_row
  visit_row-bind rest (ok a) rows h = h a
  visit_row-bind rest (err e) rows h = refl
  visit_row-bind rest panic rows h = refl

  emit-Visits :
      (fuel : ℕ) (iter : PageRowIter S) (r : Result PgError HeapTupleData)
      (rows : List HeapTupleData)
      → ¬ r ≡ panic
      → Visits fuel iter rows
      → (a : A)
      → after_round get_page visit (for_each_row get_page visit fuel) a (emit get_page iter r)
        ≡ some (visit_all visit a (add_row r rows))
  unfolding emit after_round add_row visit_all
  emit-Visits fuel iter (ok row) rows h k a =
      visit_row-bind (for_each_row get_page visit fuel iter) (visit a row) rows k
  emit-Visits fuel iter (err e) rows h k a = k a
  emit-Visits fuel iter panic rows h k a = absurd (h refl)

  -- A slot of a page, with the loop behind it.
  at_slot-Visits :
      (fuel : ℕ) (reader : S) (page : HeapPageData) (tid : ItemPointerData) (i n : ℕ)
      (rows : List HeapTupleData)
      → tid.ip_posid ≡ i
      → Visits fuel (on reader page tid) (slot_rows page (suc i) n ++ rows)
      → (a : A)
      → after_round get_page visit
          (for_each_row get_page visit fuel)
          a
          (at_slot get_page reader page tid)
        ≡ some (visit_all visit a (slot_rows page i (suc n) ++ rows))
  unfolding at_slot slot_rows
  at_slot-Visits fuel reader page tid i n rows e k a =
      let visited =
        emit-Visits fuel (on reader page tid) (get_row_data page tid.ip_posid)
          (slot_rows page (suc i) n ++ rows) (get_row_data-ne-panic page tid.ip_posid) k a in
      visited
      ∙ (ap
            (λ (j : ℕ). some (
              visit_all visit a (add_row (get_row_data page j) (slot_rows page (suc i) n ++ rows))))
            e
          ∙ ap (λ (r : List HeapTupleData). some (visit_all visit a r))
              (sym (add_row-append (get_row_data page i) (slot_rows page (suc i) n) rows)))

  -- The first slot of a page, which is tried on a page without slots too.
  page_start-Visits :
      (fuel : ℕ) (reader : S) (page : HeapPageData) (tid : ItemPointerData)
      (rows : List HeapTupleData)
      → tid.ip_posid ≡ 0
      → IsPage page
      → Visits fuel (on reader page tid) (slot_rows page 1 (page.lp_num - 1) ++ rows)
      → (a : A)
      → after_round get_page visit
          (for_each_row get_page visit fuel)
          a
          (at_slot get_page reader page tid)
        ≡ some (visit_all visit a (page_rows page ++ rows))
  unfolding page_rows slot_rows add_row
  page_start-Visits fuel reader page tid rows e k h a = elim (dec_lt 0 page.lp_num) [
    | yes some_slots ↦
        let n : page.lp_num ≡ suc (page.lp_num - 1) = omega arith in
        at_slot-Visits fuel reader page tid 0 (page.lp_num - 1) rows e h a
        ∙ ap (λ (m : ℕ). some (visit_all visit a (slot_rows page 0 m ++ rows))) (sym n)
    | no no_slots ↦
        let n : page.lp_num ≡ 0 = omega arith in
        let m : page.lp_num - 1 ≡ 0 = omega arith in
        let h' =
          subst (λ (c : ℕ). Visits fuel (on reader page tid) (slot_rows page 1 c ++ rows)) m h in
        at_slot-Visits fuel reader page tid 0 0 rows e h' a
        ∙ (ap
              (λ (r : Result PgError HeapTupleData).
                some (visit_all visit a (add_row r [] ++ rows)))
              (get_row_data-empty page n k)
            ∙ ap (λ (c : ℕ). some (visit_all visit a (slot_rows page 0 c ++ rows))) (sym n))
  ]

  module _ (reader : S) (page : HeapPageData) (tid : ItemPointerData) where
    round-next :
        leb page.lp_num (tid.ip_posid + 1) ≡ false
        → round get_page (on reader page tid) ≡ at_slot get_page reader page (next_tid tid)
    unfolding round on_page
    round-next h =
        ap
          (λ (c : _).
            if c
            then turn_page get_page page tid (get_page reader (block_number tid.ip_blkid + 1))
            else at_slot get_page reader page (next_tid tid))
          h

    round-turn :
        (given : Result PgError HeapPageData × S)
        → leb page.lp_num (tid.ip_posid + 1) ≡ true
        → get_page reader (block_number tid.ip_blkid + 1) ≡ given
        → round get_page (on reader page tid) ≡ turn_page get_page page tid given
    unfolding round on_page
    round-turn given h e =
        ap
          (λ (c : _).
            if c
            then turn_page get_page page tid (get_page reader (block_number tid.ip_blkid + 1))
            else at_slot get_page reader page (next_tid tid))
          h
        ∙ ap (turn_page get_page page tid) e

  -- The next slot of the same page.
  slot-next :
      (fuel : ℕ) (reader : S) (page : HeapPageData) (tid : ItemPointerData) (i : ℕ)
      (rows : List HeapTupleData)
      → tid.ip_posid ≡ i
      → page.lp_num ≤ 2 ^ 16
      → suc i < page.lp_num
      → Visits fuel
          (on reader page (next_tid tid))
          (slot_rows page (suc (suc i)) (page.lp_num - suc (suc i)) ++ rows)
      → Visits
          (suc fuel)
          (on reader page tid)
          (slot_rows page (suc i) (page.lp_num - suc i) ++ rows)
  unfolding for_each_row next_tid
  slot-next fuel reader page tid i rows e small more ih a =
      let n : page.lp_num - suc i ≡ suc (page.lp_num - suc (suc i)) = omega arith in
      ap (after_round get_page visit (for_each_row get_page visit fuel) a)
        (round-next reader page tid (lt→leb page.lp_num (tid.ip_posid + 1) (omega arith)))
      ∙ (at_slot-Visits fuel reader page (next_tid tid) (suc i) (page.lp_num - suc (suc i)) rows
            (omega arith) ih a
          ∙ ap (λ (m : ℕ). some (visit_all visit a (slot_rows page (suc i) m ++ rows))) (sym n))

  module _ (fuel : ℕ) (reader : S) (page : HeapPageData) (tid : ItemPointerData) (i b : ℕ)
      (e : tid.ip_posid ≡ i) (eb : block_number tid.ip_blkid ≡ b) (past : page.lp_num ≤ suc i) where
    none_left : slot_rows page (suc i) (page.lp_num - suc i) ≡ []
    unfolding slot_rows
    none_left = let n : page.lp_num - suc i ≡ 0 = omega arith in rw n refl

    turned :
        (given : Result PgError HeapPageData × S)
        → get_page reader (suc b) ≡ given
        → round get_page (on reader page tid) ≡ turn_page get_page page tid given
    turned given h =
        let at : block_number tid.ip_blkid + 1 ≡ suc b = omega arith in
        round-turn reader page tid given (le→leb page.lp_num (tid.ip_posid + 1) (omega arith))
          (ap (get_page reader) at ∙ h)

    -- No page behind.
    last-Visits :
        (x : PgError) (s' : S)
        → get_page reader (suc b) ≡ (err x, s')
        → Visits
            (suc fuel)
            (on reader page tid)
            (slot_rows page (suc i) (page.lp_num - suc i) ++ [])
    unfolding for_each_row turn_page after_round visit_all
    last-Visits x s' gone a =
        ap (after_round get_page visit (for_each_row get_page visit fuel) a)
          (turned (err x, s') gone)
        ∙ ap (λ (r : List HeapTupleData). some (visit_all visit a (r ++ []))) (sym none_left)

    -- The first slot of the page behind.
    turn-Visits :
        (s' : S) (page' : HeapPageData) (rows : List HeapTupleData)
        → get_page reader (suc b) ≡ (ok page', s')
        → IsPage page'
        → Visits fuel
            (on s' page' (next_tid (page_start tid.ip_blkid)))
            (slot_rows page' 1 (page'.lp_num - 1) ++ rows)
        → Visits
            (suc fuel)
            (on reader page tid)
            (slot_rows page (suc i) (page.lp_num - suc i) ++ (page_rows page' ++ rows))
    unfolding for_each_row turn_page
    turn-Visits s' page' rows there k ih a =
        ap (after_round get_page visit (for_each_row get_page visit fuel) a)
          (turned (ok page', s') there)
        ∙ (page_start-Visits fuel s' page' (next_tid (page_start tid.ip_blkid)) rows
              (unfold next_tid page_start in omega arith) k ih a
            ∙ ap
                (λ (r : List HeapTupleData).
                  some (visit_all visit a (r ++ (page_rows page' ++ rows))))
                (sym none_left))

  next_page-block :
      (tid : ItemPointerData) (b : ℕ)
      → block_number tid.ip_blkid ≡ b
      → suc b < 2 ^ 32
      → block_number (next_tid (page_start tid.ip_blkid)).ip_blkid ≡ suc b
  unfolding next_tid page_start
  next_page-block tid b e h =
      omega (arith, next_block-suc (block_number tid.ip_blkid) (omega arith))

  next_page-slot : (tid : ItemPointerData) → (next_tid (page_start tid.ip_blkid)).ip_posid ≡ 0
  unfolding next_tid page_start
  next_page-slot tid = omega arith

  page-Visits :
      (fuel : ℕ) (reader : S) (page : HeapPageData) (tid : ItemPointerData) (i b : ℕ)
      (pages : List HeapPageData)
      → tid.ip_posid ≡ i
      → block_number tid.ip_blkid ≡ b
      → IsPage page
      → i < max 1 page.lp_num
      → Serves get_page reader (suc b) pages
      → All IsPage pages
      → suc b + length pages ≤ 2 ^ 32
      → page.lp_num - suc i + rounds pages < fuel
      → Visits fuel
          (on reader page tid)
          (slot_rows page (suc i) (page.lp_num - suc i) ++ rows_of pages)
  unfolding rows_of
  page-Visits zero reader page tid i b pages e eb k inside serves all small enough =
      absurd (omega arith)
  page-Visits (suc fuel) reader page tid i b [] e eb (k, few) inside (x, s', gone) all small
        enough =
      elim (dec_lt (suc i) page.lp_num) [
        | yes more ↦ slot-next fuel reader page tid i [] e few more (
            page-Visits fuel reader page (next_tid tid) (suc i) b []
              (unfold next_tid in omega arith) (unfold next_tid in eb) (k, few) (omega arith)
              (x, s', gone) all small (omega arith))
        | no past ↦ last-Visits fuel reader page tid i b e eb (omega arith) x s' gone
      ]
  page-Visits (suc fuel) reader page tid i b (page' ∷ pages) e eb (k, few) inside
        (s', there, serves) (k', all) small enough =
      elim (dec_lt (suc i) page.lp_num) [
        | yes more ↦
            slot-next fuel reader page tid i (page_rows page' ++ rows_of pages) e few more (
              page-Visits fuel reader page (next_tid tid) (suc i) b (page' ∷ pages)
                (unfold next_tid in omega arith) (unfold next_tid in eb) (k, few) (omega arith)
                (s', there, serves) (k', all) small (omega arith))
        | no past ↦
            turn-Visits fuel reader page tid i b e eb (omega arith) s' page' (rows_of pages) there
              k'
              (page-Visits fuel s' page' (next_tid (page_start tid.ip_blkid)) 0 (suc b) pages
                (next_page-slot tid) (next_page-block tid b eb (omega arith)) k' (omega arith)
                serves all (omega arith) (omega arith))
      ]

  -- The loop over the rows of a relation whose pages the reader gives one after the other, up to an
  -- error behind the last, ends within a round for each slot, for each page without slots and one more;
  -- its body is run on the tuple of every slot that has one, each once, in the order of the pages and of
  -- the slots on them, and nothing is run behind the body's first error, which is the outcome. The pages
  -- have the line pointers that they announce, 2 ^ 16 at most, and their numbers are in 32 bits.
  pub for_each_row-rows_of :
      (reader : S) (pages : List HeapPageData) (fuel : ℕ) (a : A)
      → Serves get_page reader 0 pages
      → All IsPage pages
      → length pages ≤ 2 ^ 32
      → rounds pages < fuel
      → for_each_row get_page visit fuel (into_iter reader) a
        ≡ some (visit_all visit a (rows_of pages))
  unfolding for_each_row round rows_of into_iter first_page on_page after_round visit_all
  for_each_row-rows_of reader pages zero a serves all small enough = absurd (omega arith)
  for_each_row-rows_of reader [] (suc fuel) a (x, s', gone) all small enough =
      ap
        (λ (g : _).
          after_round get_page visit (for_each_row get_page visit fuel) a
            (first_page get_page none g))
        gone
  for_each_row-rows_of reader (page ∷ pages) (suc fuel) a (s', there, serves) (k, all) small
        enough =
      ap
        (λ (g : _).
          after_round get_page visit (for_each_row get_page visit fuel) a
            (first_page get_page none g))
        there
      ∙ page_start-Visits fuel s' page first_tid (rows_of pages) refl k
          (page-Visits fuel s' page first_tid 0 0 pages refl (unfold block_number in omega arith) k
            (omega arith) serves all (omega arith) (omega arith))
          a
