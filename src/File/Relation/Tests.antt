-- ===== src/File/Relation/Tests.antt =====
-- A map of one entry, and the theorem on maps at it.
use pg_arrow.Base.{◌≡◌, refl, Bytes, [], ◌∷◌, ok, read_word, slice, from_le, get_range}
use pg_arrow.Base.Sort.{insert_sorted, sort_by}
use pg_arrow.File.Relation.Checksum.{IsParsed, parse_relmap-IsParsed}
use pg_arrow.File.Relation.{RelMapFile, read_mappings, last_off, sort_mappings, parse_relmap}

-- `pg_class` and its filenode 16385.
abbrev one_entry : Bytes
one_entry = 23 ∷ 39 ∷ 89 ∷ 0 ∷ 1 ∷ 0 ∷ 0 ∷ 0 ∷ 235 ∷ 4 ∷ 0 ∷ 0 ∷ 1 ∷ 64 ∷ 0 ∷ 0 ∷ 9 ∷ 9 ∷ 9 ∷ 9 ∷ []

abbrev parsed : RelMapFile
parsed = record {
  num_mappings = 1;
  mappings = record { mapoid = 1259; mapfilenode = 16385 } ∷ [];
  crc = 16385;
}

-- The checksum is not the last word of the file.
parse_relmap-one_entry : parse_relmap one_entry ≡ ok parsed
unfolding parse_relmap read_mappings last_off sort_mappings sort_by insert_sorted read_word slice
    from_le get_range
parse_relmap-one_entry = refl

parse_relmap-IsParsed_example : IsParsed one_entry parsed
parse_relmap-IsParsed_example = parse_relmap-IsParsed one_entry parsed parse_relmap-one_entry
