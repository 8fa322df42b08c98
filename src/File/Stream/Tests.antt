-- ===== src/File/Stream/Tests.antt =====
-- A stream over two pages without rows.
use Prim.Native.Nat.{min}
use pg_arrow.Base.{
  ℕ, ◌-◌, ◌≤◌, ◌<◌, ◌≡◌, refl, arith, true, Bytes, List, [], ◌∷◌, Option, none, some, Result, ok,
  get_range, read_word, slice, from_le, length,
}
use pg_arrow.Types.Schema.{PgSchema}
use pg_arrow.File.Error.{PgError}
use pg_arrow.Heap.Page.{
  HeapPageData, parse_bytes, parse_header, num_line_pointers, read_line_pointers, read_line_pointer,
  page_buffer_size,
}
use pg_arrow.Heap.Page.Tests.{empty_page}
use pg_arrow.Heap.Snapshot.{PgSnapshot}
use pg_arrow.File.Stream.Source.{PageSource, join_pages}
use pg_arrow.File.Stream.Drain.{collect-batches_from}
use pg_arrow.File.Stream.Buffer.{fresh, fill, room, Reach-IsBounded}
use pg_arrow.File.Stream.{
  RecordBatchStream, new_stream, convert_page, collect, set_progress, fill_buffer, fill_live,
  want_pages, convert_bulk, finish_fill, push_batches,
}

abbrev two_pages : (start count : ℕ) → Unit {0} → Option (Result PgError ((Bytes × ℕ) × Unit {0}))
two_pages start count reader =
    some
      (ok ((join_pages (λ p. empty_page) start (min count (2 - start)), min count (2 - start)), tt))

size : length empty_page ≡ page_buffer_size
size = refl

abbrev source : PageSource two_pages
source = record {
  IsReady = λ reader. Unit {0};
  total = 2;
  page = λ p. empty_page;
  page_size = λ p h. size;
  reads = λ start count reader ready. (tt, tt, refl);
}

-- A batch is the number of line pointers.
abbrev slots : HeapPageData → PgSchema → Option (List ℕ) → Option PgSnapshot → Result PgError ℕ
slots page schema projection snapshot = ok page.lp_num

abbrev stream : RecordBatchStream (Unit {0}) ℕ
stream = new_stream tt (record { name = []; columns = [] }) none

converted : convert_page two_pages slots stream empty_page ≡ ok 1
unfolding convert_page parse_bytes parse_header num_line_pointers read_line_pointers
    read_line_pointer read_word slice get_range from_le
converted = refl

collect-batches_from_example : collect two_pages slots 3 stream ≡ some (ok (1 ∷ 1 ∷ []))
unfolding new_stream
collect-batches_from_example =
    collect-batches_from slots source (λ p. 1) stream 3 refl refl (omega arith) tt
      (λ q a b. converted) (omega arith)

gives :
    (start count n : ℕ) (reader left : Unit {0}) (bytes : Bytes)
    → two_pages start count reader ≡ some (ok ((bytes, n), left))
    → n ≤ count
gives start count n reader left bytes h = let e : min count (2 - start) ≡ n = cc in omega arith

-- The stream behind a call of `fill_buffer`, and behind another.
abbrev filled : RecordBatchStream (Unit {0}) ℕ
filled = set_progress stream tt 2 (1 ∷ 1 ∷ []) true

fill_buffer-stream : fill_buffer two_pages slots stream ≡ some (ok tt, filled)
unfolding fill_buffer fill_live want_pages convert_bulk finish_fill push_batches convert_page
    set_progress new_stream parse_bytes parse_header num_line_pointers read_line_pointers
    read_line_pointer read_word slice get_range from_le join_pages
fill_buffer-stream = refl

fill_buffer-filled : fill_buffer two_pages slots filled ≡ some (ok tt, filled)
unfolding fill_buffer set_progress
fill_buffer-filled = refl

Reach-IsBounded_example :
    (length filled.buffer ≤ room two_pages slots 2 filled.pages_per_batch)
    × (0 < filled.pages_per_batch)
Reach-IsBounded_example = Reach-IsBounded two_pages slots 2 filled gives (
    fill 1 filled filled (ok tt)
      (fill 0 stream filled (ok tt) (fresh stream tt (record { name = []; columns = [] }) none refl)
        fill_buffer-stream)
      fill_buffer-filled)
