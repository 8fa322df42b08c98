-- ===== src/File/Stream/Keeps.antt =====
-- What a fill and a call of `next` leave in the buffer.
use pg_arrow.Base.{
  ℕ, zero, suc, ◌+◌, ◌*◌, ◌≤◌, ◌≡◌, ◌⊎◌, refl, arith, ap, inl, inr, Bool, true, false, Bytes, List,
  [], ◌∷◌, ◌++◌, Option, none, some, Result, ok, err, panic, Bool-cases, Option-cases, ◌==◌, ◌>>=◌,
  slice, length, length-append, if◌then◌else◌,
}
use pg_arrow.Types.Schema.{PgSchema}
use pg_arrow.File.Error.{PgError}
use pg_arrow.Heap.Page.{HeapPageData, page_buffer_size}
use pg_arrow.Heap.Snapshot.{PgSnapshot}
use pg_arrow.File.Stream.{
  RecordBatchStream, set_progress, convert_page, push_batches, finish_fill, convert_bulk,
  want_pages, fill_live, fill_buffer, Item, pop_front, after_fill, next_by, Filled,
}

module _ {C Batch : Type 0}
    (bulk : (start_page count : ℕ) → C → Option (Result PgError ((Bytes × ℕ) × C)))
    (to_batch : HeapPageData
      → PgSchema
      → Option (List ℕ)
      → Option PgSnapshot
      → Result PgError Batch) where
  -- The reader never gives more pages than it is asked for.
  abbrev pub GivesAtMost : Type 0
  GivesAtMost =
      (start count n : ℕ) (reader left : C) (bytes : Bytes)
      → bulk start count reader ≡ some (ok ((bytes, n), left))
      → n ≤ count

  length-push_batches :
      (s : RecordBatchStream C Batch) (bytes : Bytes) (i n : ℕ) (buffer : List Batch)
      → length (push_batches bulk to_batch s bytes i n buffer).1 ≤ length buffer + n
  unfolding push_batches
  length-push_batches s bytes i zero buffer = omega arith
  length-push_batches s bytes i (suc n) buffer =
      go
        (slice bytes (i * page_buffer_size) (i * page_buffer_size + page_buffer_size)
          >>= convert_page bulk to_batch s)
        refl (λ more. length-push_batches s bytes (i + 1) n more)
    where
      go :
          (r : Result PgError Batch)
          → (slice bytes (i * page_buffer_size) (i * page_buffer_size + page_buffer_size)
              >>= convert_page bulk to_batch s)
            ≡ r
          → ((more : List Batch)
              → length (push_batches bulk to_batch s bytes (i + 1) n more).1 ≤ length more + n)
          → length (push_batches bulk to_batch s bytes i (suc n) buffer).1 ≤ length buffer + suc n
      go (ok batch) e ih =
          rw (push_batches, e)
            (omega (arith, ih (buffer ++ (batch ∷ [])), length-append buffer (batch ∷ [])))
      go (err x) e ih = rw (push_batches, e) (omega arith)
      go panic e ih = rw (push_batches, e) (omega arith)

  -- The buffer and the batch size behind an outcome.
  abbrev pub Keeps : ℕ → ℕ → Result PgError (Unit {0}) × RecordBatchStream C Batch → Type 0
  Keeps room size (r, s) = (length s.buffer ≤ room) × (s.pages_per_batch ≡ size)

  finish_fill-Keeps :
      (s : RecordBatchStream C Batch) (left : C) (want n room : ℕ) (r : Result PgError (Unit {0}))
      (buffer : List Batch)
      → length buffer ≤ room
      → Keeps room s.pages_per_batch (finish_fill bulk to_batch s left want n (r, buffer))
  unfolding finish_fill set_progress
  finish_fill-Keeps s left want n room (ok done) buffer h = (h, refl)
  finish_fill-Keeps s left want n room (err e) buffer h = (h, refl)
  finish_fill-Keeps s left want n room panic buffer h = (h, refl)

  convert_bulk-Keeps :
      (s : RecordBatchStream C Batch) (want : ℕ) (bytes : Bytes) (n : ℕ) (left : C)
      → n ≤ want
      → Keeps
          (length s.buffer + want)
          s.pages_per_batch
          (convert_bulk bulk to_batch s want (ok ((bytes, n), left)))
  unfolding convert_bulk set_progress
  convert_bulk-Keeps s want bytes n left h = elim (Bool-cases (n == 0)) [
    | inl gone ↦ rw gone (omega arith, refl)
    | inr some_pages ↦
        let (r, buffer) = push_batches bulk to_batch s bytes 0 n s.buffer in
        rw some_pages (
          finish_fill-Keeps s left want n (length s.buffer + want) r buffer
            (omega (arith, length-push_batches s bytes 0 n s.buffer)))
  ]

  -- Every outcome of the read.
  convert-Keeps :
      (s : RecordBatchStream C Batch) (want : ℕ) (r : Result PgError ((Bytes × ℕ) × C))
      → ((bytes : Bytes) (n : ℕ) (left : C) → r ≡ ok ((bytes, n), left) → n ≤ want)
      → Keeps (length s.buffer + want) s.pages_per_batch (convert_bulk bulk to_batch s want r)
  convert-Keeps s want (ok ((bytes, n), left)) h =
      convert_bulk-Keeps s want bytes n left (h bytes n left refl)
  convert-Keeps s want (err e) h = unfold convert_bulk in (omega arith, refl)
  convert-Keeps s want panic h = unfold convert_bulk in (omega arith, refl)

  -- A fill, of at most the batch size.
  unfoldable pub FillKeeps : RecordBatchStream C Batch → Filled bulk to_batch → Type 0
  FillKeeps s none = Unit {0}
  FillKeeps s (some filled) = Keeps (length s.buffer + s.pages_per_batch) s.pages_per_batch filled

  Keeps-widen :
      (room wide size : ℕ) (filled : Result PgError (Unit {0}) × RecordBatchStream C Batch)
      → room ≤ wide
      → Keeps room size filled
      → Keeps wide size filled
  Keeps-widen room wide size (r, s) h (fits, same) = (omega arith, same)

  read-Keeps :
      (s : RecordBatchStream C Batch) (want : ℕ) (read : Option (Result PgError ((Bytes × ℕ) × C)))
      → want ≤ s.pages_per_batch
      → ((bytes : Bytes) (n : ℕ) (left : C) → read ≡ some (ok ((bytes, n), left)) → n ≤ want)
      → FillKeeps s (elim read [
        | none ↦ none
        | some outcome ↦ some (convert_bulk bulk to_batch s want outcome)
      ])
  unfolding FillKeeps
  read-Keeps s want none small h = tt
  read-Keeps s want (some r) small h =
      Keeps-widen (length s.buffer + want) (length s.buffer + s.pages_per_batch) s.pages_per_batch
        (convert_bulk bulk to_batch s want r) (omega arith)
        (convert-Keeps s want r (λ bytes n left e. h bytes n left (ap some e)))

  want-le : (s : RecordBatchStream C Batch) → want_pages bulk to_batch s ≤ s.pages_per_batch
  unfolding want_pages
  want-le s = elim (Option-cases s.max_page_index) [
    | inl free ↦ rw (free, want_pages) (omega arith)
    | inr (max, bounded) ↦ rw (bounded, want_pages) (omega arith)
  ]

  fill_live-Keeps :
      (s : RecordBatchStream C Batch) (want : ℕ)
      → GivesAtMost
      → want ≤ s.pages_per_batch
      → FillKeeps s (fill_live bulk to_batch s want)
  unfolding fill_live set_progress FillKeeps
  fill_live-Keeps s want gives small = elim (Bool-cases (want == 0)) [
    | inl gone ↦ rw gone (omega arith, refl)
    | inr some_pages ↦ rw some_pages (
        read-Keeps s want (bulk s.next_page_index want s.chunk_reader) small
          (λ bytes n left e. gives s.next_page_index want n s.chunk_reader left bytes e))
  ]

  pub fill_buffer-Keeps :
      (s : RecordBatchStream C Batch) → GivesAtMost → FillKeeps s (fill_buffer bulk to_batch s)
  unfolding fill_buffer
  fill_buffer-Keeps s gives =
      go s.exhausted (fill_live-Keeps s (want_pages bulk to_batch s) gives (want-le s))
    where
      go :
          (b : Bool)
          → FillKeeps s (fill_live bulk to_batch s (want_pages bulk to_batch s))
          → FillKeeps s (
              if b then some (ok tt, s) else fill_live bulk to_batch s (want_pages bulk to_batch s))
      go true h = unfold FillKeeps in (omega arith, refl)
      go false h = h

  -- A call of `next`, which fills an empty buffer only.
  unfoldable pub NextKeeps :
      RecordBatchStream C Batch → Option (Item bulk to_batch × RecordBatchStream C Batch) → Type 0
  NextKeeps s none = Unit {0}
  NextKeeps s (some (item, s')) =
      (length s'.buffer ≤ length s.buffer ⊎ length s'.buffer ≤ s.pages_per_batch)
      × (s'.pages_per_batch ≡ s.pages_per_batch)

  pop_front-NextKeeps :
      (s s' : RecordBatchStream C Batch) (buffer : List Batch)
      → s'.buffer ≡ buffer
      → length s'.buffer ≤ s.pages_per_batch
      → s'.pages_per_batch ≡ s.pages_per_batch
      → NextKeeps s (some (pop_front bulk to_batch s' buffer))
  pop_front-NextKeeps s s' [] e k same = unfold NextKeeps pop_front in (inr k, same)
  pop_front-NextKeeps s s' (batch ∷ rest) e k same =
      unfold NextKeeps pop_front set_progress in (inr (omega (arith, ap length e)), same)

  after_fill-NextKeeps :
      (s : RecordBatchStream C Batch) (filled : Filled bulk to_batch)
      → s.buffer ≡ []
      → FillKeeps s filled
      → NextKeeps s (after_fill bulk to_batch filled)
  unfolding after_fill FillKeeps NextKeeps
  after_fill-NextKeeps s none empty h = tt
  after_fill-NextKeeps s (some (ok done, s')) empty (h, e) =
      pop_front-NextKeeps s s' s'.buffer refl (omega (arith, ap length empty)) e
  after_fill-NextKeeps s (some (err x, s')) empty (h, e) = (inr (omega (arith, ap length empty)), e)
  after_fill-NextKeeps s (some (panic, s')) empty (h, e) = (inr (omega (arith, ap length empty)), e)

  pub next_by-NextKeeps :
      (s : RecordBatchStream C Batch) (buffer : List Batch)
      → GivesAtMost
      → s.buffer ≡ buffer
      → NextKeeps s (next_by bulk to_batch s buffer)
  unfolding next_by
  next_by-NextKeeps s [] gives e =
      go s.exhausted
        (after_fill-NextKeeps s (fill_buffer bulk to_batch s) e (fill_buffer-Keeps s gives))
    where
      go :
          (b : Bool)
          → NextKeeps s (after_fill bulk to_batch (fill_buffer bulk to_batch s))
          → NextKeeps s
              (if b then some (none, s) else after_fill bulk to_batch (fill_buffer bulk to_batch s))
      go true k = unfold NextKeeps in (inl (omega arith), refl)
      go false k = k
  next_by-NextKeeps s (batch ∷ rest) gives e =
      unfold NextKeeps pop_front set_progress in (inl (omega (arith, ap length e)), refl)
