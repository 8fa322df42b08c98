-- ===== src/File/Relation.antt =====
-- src/file/relation.rs: `parse_relmap`. The error messages are kept as what they are formatted from.
pub mod Checksum
mod Tests
use pg_arrow.Base.{
  ℕ, zero, suc, ◌+◌, ◌-◌, ◌*◌, ◌/◌, Bytes, List, [], ◌∷◌, Bool, Result, ok, err, panic, ◌>>=◌, ltb,
  leb, not, ◌==◌, if◌then◌else◌, read_word,
}
use pg_arrow.Base.Sort.{sort_by}

abbrev pub relmapper_magic : ℕ
relmapper_magic = 0x00592717

abbrev pub relmapper_filesize : ℕ
relmapper_filesize = 512 * 2

pub record RelMapping : Type 0 where
  pub mapoid : ℕ
  pub mapfilenode : ℕ

pub record RelMapFile : Type 0 where
  pub num_mappings : ℕ
  pub mappings : List RelMapping
  pub crc : ℕ

pub data RelMapError : Type 0 where
  bad_magic : (magic : ℕ) → RelMapError
  too_many_mappings : (num_mappings max_possible : ℕ) → RelMapError

abbrev pub max_possible : ℕ
max_possible = (relmapper_filesize - 8 - 4) / 8

-- The loop over the entries: `n` of them, from entry `i` on.
unfoldable pub read_mappings : Bytes → ℕ → ℕ → Result RelMapError (List RelMapping)
read_mappings buf i zero = ok []
read_mappings buf i (suc n) = do
  mapoid ← read_word 4 buf (8 + i * 8)
  mapfilenode ← read_word 4 buf (8 + i * 8 + 4)
  mappings ← read_mappings buf (i + 1) n
  ok (record { mapoid = mapoid; mapfilenode = mapfilenode } ∷ mappings)

-- `last_off` behind the loop: it stays 0 where there is no entry.
unfoldable pub last_off : ℕ → ℕ
last_off zero = 0
last_off (suc n) = 8 + n * 8 + 8

-- `m.mapoid <= o.mapoid`
abbrev pub by_oid : RelMapping → RelMapping → Bool
by_oid m o = leb m.mapoid o.mapoid

-- `mappings.sort_by_key(|m| m.mapoid)`
unfoldable pub sort_mappings : List RelMapping → List RelMapping
sort_mappings = sort_by by_oid

-- The checksum at `crc_off`, where `last_off - 4` overflows below 4.
read_crc : Bytes → ℕ → Result RelMapError ℕ
read_crc buf off = if ltb off 4 then panic else read_word 4 buf (off - 4)

read_file : Bytes → ℕ → Result RelMapError RelMapFile
read_file buf num_mappings = do
  mappings ← read_mappings buf 0 num_mappings
  crc ← read_crc buf (last_off num_mappings)
  ok (record { num_mappings = num_mappings; mappings = sort_mappings mappings; crc = crc })

check_count : Bytes → Result RelMapError RelMapFile
check_count buf = do
  num_mappings ← read_word 4 buf 4
  if ltb max_possible num_mappings
      then err (too_many_mappings num_mappings max_possible)
      else read_file buf num_mappings

unfoldable pub parse_relmap : Bytes → Result RelMapError RelMapFile
unfolding read_crc read_file check_count
parse_relmap buf = do
  magic ← read_word 4 buf 0
  if not (magic == relmapper_magic) then err (bad_magic magic) else check_count buf
