-- ===== src/File/Stream/Drain.antt =====
-- The batches that a stream yields, up to its end.
use mathlib.Core.List.{append_assoc, append-nil}
use pg_arrow.Base.{
  ℕ, zero, suc, ◌+◌, ◌-◌, ◌≤◌, ◌<◌, ◌≡◌, refl, arith, ap, sym, ◌∙◌, inl, inr, Bool, true, false,
  Bytes, List, [], ◌∷◌, ◌++◌, Option, none, some, Result, ok, Bool-cases, ltb, ltb→lt, ◌==◌,
  if◌then◌else◌,
}
use native.Mathlib.Decide.{dec_lt}
use pg_arrow.Types.Schema.{PgSchema}
use pg_arrow.File.Error.{PgError}
use pg_arrow.Heap.Page.{HeapPageData}
use pg_arrow.Heap.Snapshot.{PgSnapshot}
use pg_arrow.File.Stream.Source.{PageSource, join_pages, slice-join_pages}
use pg_arrow.File.Stream.Fill.{limit, fetched, want-limit, fill-nothing, fill-read, bulk-nothing}
use pg_arrow.File.Stream.{
  RecordBatchStream, set_progress, convert_page, push_batches, finish_fill, convert_bulk,
  want_pages, fill_buffer, pop_front, after_fill, next_by, next, push_item, collect,
}

module _ {C Batch : Type 0}
    {bulk : (start_page count : ℕ) → C → Option (Result PgError ((Bytes × ℕ) × C))}
    (to_batch : HeapPageData
      → PgSchema
      → Option (List ℕ)
      → Option PgSnapshot
      → Result PgError Batch)
    (src : PageSource bulk) (batch : ℕ → Batch) where
  -- The batches of `n` pages from page `p` on.
  abbrev pub batches_from : (p n : ℕ) → List Batch
  batches_from p zero = []
  batches_from p (suc n) = batch p ∷ batches_from (suc p) n

  abbrev pub Converts : RecordBatchStream C Batch → ℕ → Type 0
  Converts s p = convert_page bulk to_batch s (src.page p) ≡ ok (batch p)

  push_batches-join_pages :
      (s : RecordBatchStream C Batch) (p m i n : ℕ) (buffer : List Batch)
      → i + n ≤ m
      → p + m ≤ src.total
      → ((q : ℕ) → p ≤ q → q < p + m → Converts s q)
      → push_batches bulk to_batch s (join_pages src.page p m) i n buffer
        ≡ (ok tt, buffer ++ batches_from (p + i) n)
  unfolding push_batches
  push_batches-join_pages s p m i zero buffer h there converts =
      ap (λ (b : List Batch). (ok tt, b)) (sym (append-nil buffer))
  push_batches-join_pages s p m i (suc n) buffer h there converts =
      let found = slice-join_pages src.page src.total src.page_size p m i there (omega arith) in
      let next_page : p + (i + 1) ≡ suc (p + i) = omega arith in
      rw (found, push_batches, converts (p + i) (omega arith) (omega arith))
        (push_batches-join_pages s p m (i + 1) n (buffer ++ (batch (p + i) ∷ [])) (omega arith)
            there converts
          ∙ rw next_page (
              ap (λ (b : List Batch). (ok tt, b))
                (append_assoc buffer (batch (p + i) ∷ []) (batches_from (suc (p + i)) n))))

  -- What a fill assigns to a stream whose buffer is empty: `n` batches, the next ones.
  abbrev Refilled :
      RecordBatchStream C Batch → C → (at : ℕ) → (buffer : List Batch) → (e : Bool) → ℕ → Type 0
  Refilled s left at buffer e n =
      (fill_buffer bulk to_batch s ≡ some (ok tt, set_progress s left at buffer e))
      × (buffer ≡ batches_from s.next_page_index n)
      × (at ≡ s.next_page_index + n)
      × (n ≤ limit src s - s.next_page_index)
      × (n ≡ 0 → limit src s ≤ s.next_page_index)
      × (e ≡ true → limit src s ≤ s.next_page_index + n)
      × src.IsReady left

  module _ (s : RecordBatchStream C Batch) (live : s.exhausted ≡ false) where
    bulk-pages :
        (left : C) (bytes : Bytes) (n want : ℕ) (buffer : List Batch)
        → (n == 0) ≡ false
        → push_batches bulk to_batch s bytes 0 n s.buffer ≡ (ok tt, buffer)
        → convert_bulk bulk to_batch s want (ok ((bytes, n), left))
          ≡ (ok tt, set_progress s left (s.next_page_index + n) buffer (ltb n want))
    unfolding convert_bulk finish_fill
    bulk-pages left bytes n want buffer h pushed = rw (h, pushed, live) refl

    refill :
        s.buffer ≡ []
        → 0 < s.pages_per_batch
        → src.IsReady s.chunk_reader
        → ((q : ℕ) → s.next_page_index ≤ q → q < limit src s → Converts s q)
        → (left : C) × (at : ℕ) × (buffer : List Batch) × (e : Bool) × (n : ℕ) × Refilled s left at
            buffer e n
    unfolding fetched
    refill empty some_page ready converts =
        let p = s.next_page_index in
        let want = want_pages bulk to_batch s in
        let (end, few, gone, last) = want-limit to_batch src s some_page in
        elim (Bool-cases (want == 0)) [
          | inl none_left ↦
              let at_end : limit src s ≤ p = end (ground arith) in
              (
                s.chunk_reader,
                p,
                s.buffer,
                true,
                0,
                (
                  fill-nothing bulk to_batch s live none_left,
                  empty,
                  omega arith,
                  omega arith,
                  (λ e. at_end),
                  (λ e. omega arith),
                  ready,
                ),
              )
          | inr some_left ↦
              let (left, ready', read) = src.reads p want s.chunk_reader ready in
              let n = fetched to_batch src s in
              let filled =
                fill-read bulk to_batch s live left (join_pages src.page p n) n some_left read in
              elim (Bool-cases (n == 0)) [
                | inl zero_pages ↦
                    let zero' : n ≡ 0 = ground arith in
                    (
                      left,
                      p,
                      s.buffer,
                      true,
                      0,
                      (
                        filled
                            ∙ ap some (
                                bulk-nothing bulk to_batch s live left (join_pages src.page p n) n
                                  want zero_pages),
                        empty,
                        omega arith,
                        omega arith,
                        (λ e. gone zero'),
                        (λ e. omega (arith, gone zero')),
                        ready',
                      ),
                    )
                | inr some_pages ↦
                    let nonzero : 0 < n = ground arith in
                    let there : p + n ≤ src.total = omega arith in
                    let pushed =
                      push_batches-join_pages s p n 0 n s.buffer (omega arith) there
                        (λ q a b. converts q a (omega arith)) in
                    let start : p + 0 ≡ p = omega arith in
                    (
                      left,
                      p + n,
                      s.buffer ++ batches_from (p + 0) n,
                      ltb n want,
                      n,
                      (
                        filled
                            ∙ ap some (
                                bulk-pages left (join_pages src.page p n) n want
                                  (s.buffer ++ batches_from (p + 0) n) some_pages pushed),
                        (rw (empty, start) refl),
                        refl,
                        few,
                        (λ e. absurd (omega arith)),
                        (λ e. last (ltb→lt n want e)),
                        ready',
                      ),
                    )
              ]
        ]

  -- The next batch to come is that of page `p`; `k` batches are in the buffer.
  record Serving (s : RecordBatchStream C Batch) (p : ℕ) : Type 0 where
    k : ℕ
    holds : s.buffer ≡ batches_from p k
    at : s.next_page_index ≡ p + k
    few : k ≤ limit src s - p
    done : s.exhausted ≡ true → limit src s ≤ p + k
    some_page : 0 < s.pages_per_batch
    ready : src.IsReady s.chunk_reader
    converts : (q : ℕ) → p ≤ q → q < limit src s → Converts s q

  abbrev popped : RecordBatchStream C Batch → List Batch → RecordBatchStream C Batch
  popped s rest = set_progress s s.chunk_reader s.next_page_index rest s.exhausted

  -- The front of the buffer is the next item.
  pop-Serving :
      (s : RecordBatchStream C Batch) (p k : ℕ)
      → (h : Serving s p) → h.k ≡ suc k
      → Serving (popped s (batches_from (suc p) k)) (suc p)
  unfolding set_progress convert_page
  pop-Serving s p k h e = record {
    k = k;
    holds = refl;
    at = omega (arith, h.at);
    few = omega (arith, h.few);
    done = (λ d. omega (arith, h.done d));
    some_page = h.some_page;
    ready = h.ready;
    converts = (λ q a b. h.converts q (omega arith) b);
  }

  refill-Serving :
      (s : RecordBatchStream C Batch) (p : ℕ)
      → (h : Serving s p) → h.k ≡ 0
      → s.exhausted ≡ false
      → (s' : RecordBatchStream C Batch) × (h' : Serving s' p) × (fill_buffer bulk to_batch s
          ≡ some (ok tt, s'))
        × (limit src s' ≡ limit src s)
        × (p < limit src s → 0 < h'.k)
  unfolding set_progress convert_page
  refill-Serving s p h e live =
      let empty : s.buffer ≡ [] = h.holds ∙ ap (batches_from p) e in
      let start : s.next_page_index ≡ p = omega (arith, h.at) in
      let (left, at, buffer, over, n, (filled, holds, behind, few, gone, done, ready)) =
        refill s live empty h.some_page h.ready (λ q a b. h.converts q (omega arith) b) in
      (
        set_progress s left at buffer over,
        record {
          k = n;
          holds = holds ∙ ap (λ (x : ℕ). batches_from x n) start;
          at = omega arith;
          few = omega arith;
          done = (λ d. omega (arith, done d));
          some_page = h.some_page;
          ready = ready;
          converts = h.converts;
        },
        filled,
        refl,
        (λ below. elim (dec_lt 0 n) [
          | yes some_pages ↦ some_pages
          | no zero_pages ↦ absurd (omega (arith, gone (omega arith)))
        ]),
      )

  module _ (s : RecordBatchStream C Batch) (p : ℕ) (h : Serving s p) where
    next-pop :
        (k : ℕ)
        → h.k ≡ suc k
        → next bulk to_batch s ≡ some (some (ok (batch p)), popped s (batches_from (suc p) k))
    unfolding next next_by pop_front
    next-pop k e = ap (next_by bulk to_batch s) (h.holds ∙ ap (batches_from p) e)

    empty_buffer : h.k ≡ 0 → s.buffer ≡ []
    empty_buffer e = h.holds ∙ ap (batches_from p) e

    next-fill :
        h.k ≡ 0
        → s.exhausted ≡ false
        → next bulk to_batch s ≡ after_fill bulk to_batch (fill_buffer bulk to_batch s)
    unfolding next next_by
    next-fill e live =
        ap (next_by bulk to_batch s) (empty_buffer e)
        ∙ ap
            (λ (b : Bool).
              if b then some (none, s) else after_fill bulk to_batch (fill_buffer bulk to_batch s))
            live

    next-over : h.k ≡ 0 → s.exhausted ≡ true → next bulk to_batch s ≡ some (none, s)
    unfolding next next_by
    next-over e over =
        ap (next_by bulk to_batch s) (empty_buffer e)
        ∙ ap
            (λ (b : Bool).
              if b then some (none, s) else after_fill bulk to_batch (fill_buffer bulk to_batch s))
            over

    -- While there are pages in front of the limit, `next` gives the batch of the first of them.
    next-Serving :
        p < limit src s
        → (s' : RecordBatchStream C Batch) × (next bulk to_batch s ≡ some (some (ok (batch p)), s'))
          × Serving s' (suc p)
          × (limit src s' ≡ limit src s)
    unfolding set_progress after_fill pop_front
    next-Serving below = elim (dec_lt 0 h.k) [
      | yes some_left ↦
          let e : h.k ≡ suc (h.k - 1) = omega arith in
          (
            popped s (batches_from (suc p) (h.k - 1)),
            next-pop (h.k - 1) e,
            pop-Serving s p (h.k - 1) h e,
            refl,
          )
      | no none_left ↦
          let zero_left : h.k ≡ 0 = omega arith in
          elim (Bool-cases s.exhausted) [
            | inl over ↦ absurd (omega (arith, h.done over))
            | inr live ↦
                let (s', h', filled, same, more) = refill-Serving s p h zero_left live in
                let e : h'.k ≡ suc (h'.k - 1) = omega (arith, more below) in
                (
                  popped s' (batches_from (suc p) (h'.k - 1)),
                  next-fill zero_left live
                      ∙ (ap (after_fill bulk to_batch) filled
                          ∙ ap (λ (b : List Batch). some (pop_front bulk to_batch s' b))
                              (h'.holds ∙ ap (batches_from p) e)),
                  pop-Serving s' p (h'.k - 1) h' e,
                  same,
                )
          ]
    ]

    -- At the limit it gives the end of the stream.
    next-end :
        limit src s ≤ p
        → (s' : RecordBatchStream C Batch) × (next bulk to_batch s ≡ some (none, s'))
    unfolding after_fill pop_front
    next-end past =
        let zero_left : h.k ≡ 0 = omega (arith, h.few) in
        elim (Bool-cases s.exhausted) [
          | inl over ↦ (s, next-over zero_left over)
          | inr live ↦
              let (s', h', filled, same, more) = refill-Serving s p h zero_left live in
              let e : h'.k ≡ 0 = omega (arith, h'.few) in
              (
                s',
                next-fill zero_left live
                    ∙ (ap (after_fill bulk to_batch) filled
                        ∙ ap (λ (b : List Batch). some (pop_front bulk to_batch s' b))
                            (h'.holds ∙ ap (batches_from p) e)),
              )
        ]

  collect-Serving :
      (n fuel : ℕ) (s : RecordBatchStream C Batch) (p : ℕ)
      → Serving s p
      → n ≡ limit src s - p
      → n < fuel
      → collect bulk to_batch fuel s ≡ some (ok (batches_from p n))
  unfolding collect push_item
  collect-Serving n zero s p h e enough = absurd (omega arith)
  collect-Serving zero (suc fuel) s p h e enough =
      let (s', ended) = next-end s p h (omega arith) in rw ended refl
  collect-Serving (suc n) (suc fuel) s p h e enough =
      let (s', found, h', same) = next-Serving s p h (omega arith) in
      let behind = collect-Serving n fuel s' (suc p) h' (omega arith) (omega arith) in
      rw (found, push_item, behind) refl

  -- A stream with an empty buffer and pages left to ask for, over a chunk reader that serves its pages,
  -- ends: where each page from its next one up to the limit converts, which is the end of its page range
  -- or of the relation, the loop over it, with a round for each of these pages and one more, collects
  -- exactly their batches, in the order of the pages.
  pub collect-batches_from :
      (s : RecordBatchStream C Batch) (fuel : ℕ)
      → s.buffer ≡ []
      → s.exhausted ≡ false
      → 0 < s.pages_per_batch
      → src.IsReady s.chunk_reader
      → ((q : ℕ) → s.next_page_index ≤ q → q < limit src s → Converts s q)
      → limit src s - s.next_page_index < fuel
      → collect bulk to_batch fuel s
        ≡ some (ok (batches_from s.next_page_index (limit src s - s.next_page_index)))
  collect-batches_from s fuel empty live some_page ready converts enough =
      let h : Serving s s.next_page_index = record {
        k = 0;
        holds = empty;
        at = omega arith;
        few = omega arith;
        done = (λ over. let bad : false ≡ true = sym live ∙ over in cc);
        some_page = some_page;
        ready = ready;
        converts = converts;
      } in
      collect-Serving (limit src s - s.next_page_index) fuel s s.next_page_index h refl enough
