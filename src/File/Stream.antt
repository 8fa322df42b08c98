-- ===== src/File/Stream.antt =====
-- src/file/reader.rs: `RecordBatchStream` and `read_all_to_batches`, over any `ChunkReader` and any
-- conversion of a page. `num_threads` is read by nothing and left out.
pub mod Source
pub mod Fill
pub mod Drain
pub mod Keeps
pub mod Buffer
mod Tests
use Prim.Native.Nat.{min}
use pg_arrow.Base.{
  ℕ, zero, suc, ◌+◌, ◌-◌, ◌*◌, Bool, true, false, ◌||◌, Bytes, List, [], ◌∷◌, ◌++◌, Option, none,
  some, Result, ok, err, panic, ◌>>=◌, ltb, ◌==◌, if◌then◌else◌, slice,
}
use pg_arrow.Types.Datum.{or_panic}
use pg_arrow.Types.Schema.{PgSchema}
use pg_arrow.File.Error.{PgError}
use pg_arrow.Heap.Page.{HeapPageData, page_buffer_size, parse_bytes}
use pg_arrow.Heap.Snapshot.{PgSnapshot}

abbrev pub default_pages_per_batch : ℕ
default_pages_per_batch = 128

-- `C` is the chunk reader with its segment cache.
pub record RecordBatchStream (C Batch : Type 0) : Type 0 where
  pub chunk_reader : C
  pub schema : PgSchema
  pub projection : Option (List ℕ)
  pub pages_per_batch : ℕ
  pub next_page_index : ℕ
  pub max_page_index : Option ℕ
  pub buffer : List Batch
  pub exhausted : Bool
  pub snapshot : Option PgSnapshot

module _ {C Batch : Type 0} where
  unfoldable pub new_stream : C → PgSchema → Option (List ℕ) → RecordBatchStream C Batch
  new_stream reader schema projection = record {
    chunk_reader = reader;
    schema = schema;
    projection = projection;
    pages_per_batch = default_pages_per_batch;
    next_page_index = 0;
    max_page_index = none;
    buffer = [];
    exhausted = false;
    snapshot = none;
  }

  -- The assignments of the methods: what is read, what is buffered, and the reader.
  unfoldable pub set_progress :
      RecordBatchStream C Batch → C → ℕ → List Batch → Bool → RecordBatchStream C Batch
  set_progress s reader next buffer exhausted = record {
    chunk_reader = reader;
    schema = s.schema;
    projection = s.projection;
    pages_per_batch = s.pages_per_batch;
    next_page_index = next;
    max_page_index = s.max_page_index;
    buffer = buffer;
    exhausted = exhausted;
    snapshot = s.snapshot;
  }

  -- The assignments of the builder's methods.
  set_options :
      RecordBatchStream C Batch → ℕ → ℕ → Option ℕ → Option PgSnapshot → RecordBatchStream C Batch
  set_options s pages_per_batch next max_page_index snapshot = record {
    chunk_reader = s.chunk_reader;
    schema = s.schema;
    projection = s.projection;
    pages_per_batch = pages_per_batch;
    next_page_index = next;
    max_page_index = max_page_index;
    buffer = s.buffer;
    exhausted = s.exhausted;
    snapshot = snapshot;
  }

  unfoldable pub with_snapshot : RecordBatchStream C Batch → PgSnapshot → RecordBatchStream C Batch
  unfolding set_options
  with_snapshot s snapshot =
      set_options s s.pages_per_batch s.next_page_index s.max_page_index (some snapshot)

  unfoldable pub with_pages_per_batch : RecordBatchStream C Batch → ℕ → RecordBatchStream C Batch
  unfolding set_options
  with_pages_per_batch s n =
      set_options s (if n == 0 then default_pages_per_batch else n) s.next_page_index
        s.max_page_index s.snapshot

  unfoldable pub with_page_range : RecordBatchStream C Batch → ℕ → ℕ → RecordBatchStream C Batch
  unfolding set_options
  with_page_range s start end = set_options s s.pages_per_batch start (some end) s.snapshot

-- The conversion of a page is `HeapPageData::to_record_batch`.
module _ {C Batch : Type 0}
    (read_pages_bulk : (start_page count : ℕ) → C → Option (Result PgError ((Bytes × ℕ) × C)))
    (to_record_batch : HeapPageData
      → PgSchema
      → Option (List ℕ)
      → Option PgSnapshot
      → Result PgError Batch) where
  -- One page's bytes to its batch: `parse_bytes(...)?` and `to_record_batch(...).unwrap()`.
  unfoldable pub convert_page : RecordBatchStream C Batch → Bytes → Result PgError Batch
  convert_page s bytes = do
    page ← parse_bytes bytes
    or_panic (to_record_batch page s.schema s.projection s.snapshot)

  -- The loop of `fill_buffer` over the pages of `bulk_bytes` from page `i` on; the buffer keeps what
  -- was pushed before an error.
  unfoldable pub push_batches :
      RecordBatchStream C Batch
      → Bytes
      → (i n : ℕ) → List Batch
      → Result PgError (Unit {0}) × List Batch
  push_batches s bulk_bytes i zero buffer = (ok tt, buffer)
  push_batches s bulk_bytes i (suc n) buffer =
      let start = i * page_buffer_size in
      elim (slice bulk_bytes start (start + page_buffer_size) >>= convert_page s) [
        | ok batch ↦ push_batches s bulk_bytes (i + 1) n (buffer ++ (batch ∷ []))
        | err e ↦ (err e, buffer)
        | panic ↦ (panic, buffer)
      ]

  -- `none` where the chunk reader's own loop runs out of fuel.
  abbrev pub Filled : Type 0
  Filled = Option (Result PgError (Unit {0}) × RecordBatchStream C Batch)

  -- What follows the loop.
  unfoldable pub finish_fill :
      RecordBatchStream C Batch
      → C
      → (want pages_read : ℕ) → Result PgError (Unit {0}) × List Batch
      → Result PgError (Unit {0}) × RecordBatchStream C Batch
  finish_fill s reader want pages_read (ok done, buffer) = (
    ok tt,
    set_progress s reader (s.next_page_index + pages_read) buffer
        (s.exhausted || ltb pages_read want),
  )
  finish_fill s reader want pages_read (err e, buffer) =
      (err e, set_progress s reader s.next_page_index buffer s.exhausted)
  finish_fill s reader want pages_read (panic, buffer) =
      (panic, set_progress s reader s.next_page_index buffer s.exhausted)

  -- What `fill_buffer` does with the outcome of `read_pages_bulk`.
  unfoldable pub convert_bulk :
      RecordBatchStream C Batch
      → ℕ
      → Result PgError ((Bytes × ℕ) × C)
      → Result PgError (Unit {0}) × RecordBatchStream C Batch
  unfolding finish_fill
  convert_bulk s want (ok ((bulk_bytes, pages_read), reader)) =
      if pages_read == 0
      then (ok tt, set_progress s reader s.next_page_index s.buffer true)
      else finish_fill s reader want pages_read (push_batches s bulk_bytes 0 pages_read s.buffer)
  convert_bulk s want (err e) = (err e, s)
  convert_bulk s want panic = (panic, s)

  -- `want`
  unfoldable pub want_pages : RecordBatchStream C Batch → ℕ
  want_pages s = elim s.max_page_index [
    | some max ↦ min s.pages_per_batch (max - s.next_page_index)
    | none ↦ s.pages_per_batch
  ]

  unfoldable pub fill_live : RecordBatchStream C Batch → ℕ → Filled
  unfolding convert_bulk
  fill_live s want =
      if want == 0
      then some (ok tt, set_progress s s.chunk_reader s.next_page_index s.buffer true)
      else elim (read_pages_bulk s.next_page_index want s.chunk_reader) [
        | none ↦ none
        | some outcome ↦ some (convert_bulk s want outcome)
      ]

  unfoldable pub fill_buffer : RecordBatchStream C Batch → Filled
  unfolding fill_live want_pages
  fill_buffer s = if s.exhausted then some (ok tt, s) else fill_live s (want_pages s)

  -- The item, or the end of the stream.
  abbrev pub Item : Type 0
  Item = Option (Result PgError Batch)

  -- `self.buffer.pop_front().map(Ok)`
  unfoldable pub pop_front :
      RecordBatchStream C Batch → List Batch → Item × RecordBatchStream C Batch
  pop_front s [] = (none, s)
  pop_front s (batch ∷ rest) =
      (some (ok batch), set_progress s s.chunk_reader s.next_page_index rest s.exhausted)

  -- What `next` does behind `fill_buffer`.
  unfoldable pub after_fill : Filled → Option (Item × RecordBatchStream C Batch)
  unfolding pop_front
  after_fill none = none
  after_fill (some (ok done, s)) = some (pop_front s s.buffer)
  after_fill (some (err e, s)) = some (some (err e), s)
  after_fill (some (panic, s)) = some (some panic, s)

  -- By the buffer.
  unfoldable pub next_by :
      RecordBatchStream C Batch → List Batch → Option (Item × RecordBatchStream C Batch)
  unfolding pop_front after_fill
  next_by s (batch ∷ rest) = some (pop_front s (batch ∷ rest))
  next_by s [] = if s.exhausted then some (none, s) else after_fill (fill_buffer s)

  -- `Iterator::next`
  unfoldable pub next : RecordBatchStream C Batch → Option (Item × RecordBatchStream C Batch)
  unfolding next_by
  next s = next_by s s.buffer

  abbrev pub Collected : Type 0
  Collected = Option (Result PgError (List Batch))

  -- `all.push(result?)`, in front of what is pushed later.
  unfoldable pub push_item :
      (RecordBatchStream C Batch → Collected)
      → Option (Item × RecordBatchStream C Batch)
      → Collected
  push_item rest none = none
  push_item rest (some (none, s)) = some (ok [])
  push_item rest (some (some (ok batch), s)) = elim (rest s) [
    | none ↦ none
    | some all ↦ some (all >>= λ batches. ok (batch ∷ batches))
  ]
  push_item rest (some (some (err e), s)) = some (err e)
  push_item rest (some (some panic, s)) = some panic

  -- The loop of `read_all_to_batches`, with a round for each call of `next`.
  unfoldable pub collect : ℕ → RecordBatchStream C Batch → Collected
  unfolding push_item
  collect zero s = none
  collect (suc fuel) s = push_item (collect fuel) (next s)

  unfoldable pub read_all_to_batches : ℕ → C → PgSchema → Option (List ℕ) → Collected
  read_all_to_batches fuel reader schema projection =
      collect fuel (new_stream reader schema projection)
