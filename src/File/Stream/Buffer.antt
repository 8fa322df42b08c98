-- ===== src/File/Stream/Buffer.antt =====
-- What a stream keeps in its buffer, whatever its pages hold: a step relation over its methods.
use pg_arrow.Base.{
  ℕ, zero, suc, ◌+◌, ◌≤◌, ◌<◌, ◌≡◌, refl, arith, ap, inl, inr, Bytes, List, [], Option, some,
  Result, Bool-cases, ◌==◌, length,
}
use mathlib.Core.Path.{subst}
use pg_arrow.Types.Schema.{PgSchema}
use pg_arrow.File.Error.{PgError}
use pg_arrow.Heap.Page.{HeapPageData}
use pg_arrow.Heap.Snapshot.{PgSnapshot}
use pg_arrow.File.Stream.{
  RecordBatchStream, new_stream, with_snapshot, with_pages_per_batch, with_page_range, fill_buffer,
  Item, next,
}
use pg_arrow.File.Stream.Keeps.{
  GivesAtMost, FillKeeps, NextKeeps, fill_buffer-Keeps, next_by-NextKeeps,
}

module _ {C Batch : Type 0}
    (bulk : (start_page count : ℕ) → C → Option (Result PgError ((Bytes × ℕ) × C)))
    (to_batch : HeapPageData
      → PgSchema
      → Option (List ℕ)
      → Option PgSnapshot
      → Result PgError Batch) where
  -- The methods of a stream other than `fill_buffer`; its batch size is set where the buffer is empty.
  pub data Step (s : RecordBatchStream C Batch) (s' : RecordBatchStream C Batch) : Type 0 where
    pull : (item : Item bulk to_batch) → next bulk to_batch s ≡ some (item, s') → Step s s'
    see : (snapshot : PgSnapshot) → s' ≡ with_snapshot s snapshot → Step s s'
    restrict : (start end : ℕ) → s' ≡ with_page_range s start end → Step s s'
    resize : (n : ℕ) → s.buffer ≡ [] → s' ≡ with_pages_per_batch s n → Step s s'

  -- The streams that the methods lead to from a new one, with a number of calls of `fill_buffer` by
  -- the caller, which fills whatever the buffer holds.
  pub data Reach : ℕ → RecordBatchStream C Batch → Type 0 where
    fresh :
        (s : RecordBatchStream C Batch) (reader : C) (schema : PgSchema)
        (projection : Option (List ℕ))
        → s ≡ new_stream reader schema projection
        → Reach 0 s
    after :
        (calls : ℕ) (s s' : RecordBatchStream C Batch) → Reach calls s → Step s s' → Reach calls s'
    fill :
        (calls : ℕ) (s s' : RecordBatchStream C Batch) (outcome : Result PgError (Unit {0}))
        → Reach calls s
        → fill_buffer bulk to_batch s ≡ some (outcome, s')
        → Reach (suc calls) s'

  -- The pages of a fill, and of one more for each call.
  abbrev pub room : ℕ → ℕ → ℕ
  room zero size = size
  room (suc calls) size = size + room calls size

  -- No more batches than the pages of the fills, and a fill of a page at least.
  abbrev pub IsBounded : ℕ → RecordBatchStream C Batch → Type 0
  IsBounded calls s = (length s.buffer ≤ room calls s.pages_per_batch) × (0 < s.pages_per_batch)

  size-room : (calls size : ℕ) → size ≤ room calls size
  size-room zero size = omega arith
  size-room (suc calls) size = omega arith

  next-IsBounded :
      (calls : ℕ) (s s' : RecordBatchStream C Batch) (item : Item bulk to_batch)
      → GivesAtMost bulk to_batch
      → next bulk to_batch s ≡ some (item, s')
      → IsBounded calls s
      → IsBounded calls s'
  unfolding next NextKeeps
  next-IsBounded calls s s' item gives e (h, some_page) =
      let (fits, same) =
        subst (NextKeeps bulk to_batch s) e
          (next_by-NextKeeps bulk to_batch s s.buffer gives refl) in
      let k = size-room calls s.pages_per_batch in
      rw same (elim fits [
        | inl fewer ↦ (omega arith, omega arith)
        | inr one ↦ (omega arith, omega arith)
      ])

  fill_buffer-IsBounded :
      (calls : ℕ) (s s' : RecordBatchStream C Batch) (outcome : Result PgError (Unit {0}))
      → GivesAtMost bulk to_batch
      → fill_buffer bulk to_batch s ≡ some (outcome, s')
      → IsBounded calls s
      → IsBounded (suc calls) s'
  unfolding FillKeeps
  fill_buffer-IsBounded calls s s' outcome gives e (h, some_page) =
      let (fits, same) =
        subst (FillKeeps bulk to_batch s) e (fill_buffer-Keeps bulk to_batch s gives) in
      rw same (omega arith, omega arith)

  see-IsBounded :
      (calls : ℕ) (s : RecordBatchStream C Batch) (snapshot : PgSnapshot)
      → IsBounded calls s
      → IsBounded calls (with_snapshot s snapshot)
  unfolding with_snapshot
  see-IsBounded calls s snapshot h = h

  restrict-IsBounded :
      (calls : ℕ) (s : RecordBatchStream C Batch) (start end : ℕ)
      → IsBounded calls s
      → IsBounded calls (with_page_range s start end)
  unfolding with_page_range
  restrict-IsBounded calls s start end h = h

  resize-IsBounded :
      (calls : ℕ) (s : RecordBatchStream C Batch) (n : ℕ)
      → s.buffer ≡ []
      → IsBounded calls (with_pages_per_batch s n)
  unfolding with_pages_per_batch
  resize-IsBounded calls s n empty = elim (Bool-cases (n == 0)) [
    | inl gone ↦ rw gone (omega (arith, ap length empty), omega arith)
    | inr some_pages ↦ rw some_pages (omega (arith, ap length empty), ground arith)
  ]

  Step-IsBounded :
      (calls : ℕ) (s s' : RecordBatchStream C Batch)
      → GivesAtMost bulk to_batch
      → Step s s'
      → IsBounded calls s
      → IsBounded calls s'
  Step-IsBounded calls s s' gives (pull item e) h = next-IsBounded calls s s' item gives e h
  Step-IsBounded calls s s' gives (see snapshot e) h = rw e (see-IsBounded calls s snapshot h)
  Step-IsBounded calls s s' gives (restrict start end e) h =
      rw e (restrict-IsBounded calls s start end h)
  Step-IsBounded calls s s' gives (resize n empty e) h = rw e (resize-IsBounded calls s n empty)

  -- Every stream that its methods reach from a new one, the batch size set where nothing is buffered,
  -- holds at most as many batches as a fill has pages, and as many again for each call of `fill_buffer`
  -- that its caller has made besides those of `next`, also behind an error; and a fill has a page at
  -- least. The chunk reader is one that never gives more pages than it is asked for.
  pub Reach-IsBounded :
      (calls : ℕ) (s : RecordBatchStream C Batch)
      → GivesAtMost bulk to_batch
      → Reach calls s
      → IsBounded calls s
  Reach-IsBounded _ _ gives (fresh s reader schema projection e) =
      rw e (unfold new_stream in (omega arith, omega arith))
  Reach-IsBounded _ _ gives (after calls s0 s before step) =
      Step-IsBounded calls s0 s gives step (Reach-IsBounded calls s0 gives before)
  Reach-IsBounded _ _ gives (fill calls s0 s outcome before e) =
      fill_buffer-IsBounded calls s0 s outcome gives e (Reach-IsBounded calls s0 gives before)
