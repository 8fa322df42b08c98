-- ===== src/File/Stream/Fill.antt =====
-- One fill of a stream, up to the conversion of the pages.
use Prim.Native.Nat.{min}
use pg_arrow.Base.{
  ℕ, ◌+◌, ◌-◌, ◌≤◌, ◌<◌, ◌≡◌, refl, arith, ◌∙◌, inl, inr, true, false, Bytes, List, Option, none,
  some, Result, ok, Option-cases, ◌==◌,
}
use pg_arrow.Types.Schema.{PgSchema}
use pg_arrow.File.Error.{PgError}
use pg_arrow.Heap.Page.{HeapPageData}
use pg_arrow.Heap.Snapshot.{PgSnapshot}
use pg_arrow.File.Stream.Source.{PageSource}
use pg_arrow.File.Stream.{
  RecordBatchStream, set_progress, convert_bulk, want_pages, fill_live, fill_buffer,
}

module _ {C Batch : Type 0}
    {bulk : (start_page count : ℕ) → C → Option (Result PgError ((Bytes × ℕ) × C))}
    (src : PageSource bulk) where
  -- The page at which the stream is to end.
  abbrev pub limit : RecordBatchStream C Batch → ℕ
  limit s = elim s.max_page_index [ none ↦ src.total | some max ↦ min max src.total ]

module _ {C Batch : Type 0}
    {bulk : (start_page count : ℕ) → C → Option (Result PgError ((Bytes × ℕ) × C))}
    (to_batch : HeapPageData
      → PgSchema
      → Option (List ℕ)
      → Option PgSnapshot
      → Result PgError Batch)
    (src : PageSource bulk) where
  -- The number of pages that a fill asks for, as far as they are there.
  unfoldable pub fetched : RecordBatchStream C Batch → ℕ
  fetched s = min (want_pages bulk to_batch s) (src.total - s.next_page_index)

  pub want-limit :
      (s : RecordBatchStream C Batch)
      → 0 < s.pages_per_batch
      → (want_pages bulk to_batch s ≡ 0 → limit src s ≤ s.next_page_index)
        × (fetched s ≤ limit src s - s.next_page_index)
        × (fetched s ≡ 0 → limit src s ≤ s.next_page_index)
        × (fetched s < want_pages bulk to_batch s → limit src s ≤ s.next_page_index + fetched s)
  unfolding want_pages fetched
  want-limit s h = elim (Option-cases s.max_page_index) [
    | inl free ↦ rw (free, want_pages, limit) (omega arith)
    | inr (max, bounded) ↦ rw (bounded, want_pages, limit) (omega arith)
  ]

module _ {C Batch : Type 0}
    (bulk : (start_page count : ℕ) → C → Option (Result PgError ((Bytes × ℕ) × C)))
    (to_batch : HeapPageData
      → PgSchema
      → Option (List ℕ)
      → Option PgSnapshot
      → Result PgError Batch)
    (s : RecordBatchStream C Batch) (live : s.exhausted ≡ false) where
  pub fill-nothing :
      (want_pages bulk to_batch s == 0) ≡ true
      → fill_buffer bulk to_batch s
        ≡ some (ok tt, set_progress s s.chunk_reader s.next_page_index s.buffer true)
  unfolding fill_buffer fill_live
  fill-nothing none_left = rw (fill_buffer, live, none_left) refl

  fill-live : fill_buffer bulk to_batch s ≡ fill_live bulk to_batch s (want_pages bulk to_batch s)
  unfolding fill_buffer
  fill-live = rw live refl

  pub fill-read :
      (left : C) (bytes : Bytes) (n : ℕ)
      → (want_pages bulk to_batch s == 0) ≡ false
      → bulk s.next_page_index (want_pages bulk to_batch s) s.chunk_reader
        ≡ some (ok ((bytes, n), left))
      → fill_buffer bulk to_batch s
        ≡ some (convert_bulk bulk to_batch s (want_pages bulk to_batch s) (ok ((bytes, n), left)))
  unfolding fill_live
  fill-read left bytes n some_left read = fill-live ∙ rw (some_left, fill_live, read) refl

  pub bulk-nothing :
      (left : C) (bytes : Bytes) (n want : ℕ)
      → (n == 0) ≡ true
      → convert_bulk bulk to_batch s want (ok ((bytes, n), left))
        ≡ (ok tt, set_progress s left s.next_page_index s.buffer true)
  unfolding convert_bulk
  bulk-nothing left bytes n want h = rw h refl
