-- ===== src/File/Error.antt =====
-- src/file/error.rs: `PgError`. A message that the code formats is kept as what it is formatted from.
use pg_arrow.Base.{ℕ, String, Bytes}
use pg_arrow.Types.Datum.{DecodeError}

pub data Detail : Type 0 where
  of_decode : DecodeError → Detail
  fixed_text : String → Detail
  column_index : (index : ℕ) → Detail
  column_out_of : (index columns : ℕ) → Detail
  column_named : (name : Bytes) → Detail

pub data PgError : Type 0 where
  generic : PgError
  page_buffer_too_short : (actual expected : ℕ) → PgError
  unknown_info_mask : ℕ → PgError
  tuple_buffer_too_short : (actual expected : ℕ) → PgError
  invalid_tuple_hoff : (t_hoff min buf_len : ℕ) → PgError
  null_bitmap_overflow : (bitmap_end t_hoff : ℕ) → PgError
  dead_tuple_line_pointer : (ip_posid : ℕ) → PgError
  null_column_value : (id : ℕ) → PgError
  column_not_found : Detail → PgError
  decode_error : Detail → PgError
  table_not_found : (name : Bytes) → PgError
  no_table_selected : PgError
  catalog_bootstrap_failed : Detail → PgError
  arrow_conversion_failed : Detail → PgError
