-- ===== src/File/Relation/Checksum.antt =====
-- What `parse_relmap` returns.
use mathlib.Core.Path.{subst}
use mathlib.Core.List.{Perm}
use pg_arrow.Base.{
  ℕ, zero, suc, ◌+◌, ◌-◌, ◌*◌, ◌≤◌, ◌≡◌, refl, arith, sym, ◌∙◌, false, Bool-cases, inl, inr, Bytes,
  List, [], ◌∷◌, ok, >>=-eq-ok, ltb, ◌==◌, ==_iff, read_word, word_at, slice, get_range,
}
use pg_arrow.Base.Sort.{Sorted, sort_by-Perm, sort_by-Sorted}
use pg_arrow.File.Relation.{
  relmapper_magic, max_possible, RelMapping, RelMapFile, RelMapError, read_mappings, last_off,
  by_oid, sort_mappings, read_crc, read_file, check_count, parse_relmap,
}

-- The entries in the order of the file, in plain arithmetic.
abbrev pub entries : Bytes → ℕ → ℕ → List RelMapping
entries buf i zero = []
entries buf i (suc n) =
    record { mapoid = word_at 4 buf (8 + i * 8); mapfilenode = word_at 4 buf (8 + i * 8 + 4) }
    ∷ entries buf (i + 1) n

read_word-ok :
    (n : ℕ) (buf : Bytes) (a : ℕ) {w : ℕ}
    → read_word {E = RelMapError} n buf a ≡ ok w
    → w ≡ word_at n buf a
unfolding read_word slice get_range
read_word-ok n buf a h = ground arith

read_mappings-entries :
    (buf : Bytes) (i n : ℕ) {mappings : List RelMapping}
    → read_mappings buf i n ≡ ok mappings
    → mappings ≡ entries buf i n
unfolding read_mappings
read_mappings-entries buf i zero h = cc
read_mappings-entries buf i (suc n) h =
    let (oid, found, h') = >>=-eq-ok (read_word 4 buf (8 + i * 8)) _ h in
    let (filenode, found', h'') = >>=-eq-ok (read_word 4 buf (8 + i * 8 + 4)) _ h' in
    let (later, found'', h''') = >>=-eq-ok (read_mappings buf (i + 1) n) _ h'' in
    let o = read_word-ok 4 buf (8 + i * 8) found in
    let f = read_word-ok 4 buf (8 + i * 8 + 4) found' in
    let e = read_mappings-entries buf (i + 1) n found'' in cc

-- The checksum is read from the filenode of the last entry, and there is one.
read_crc-last :
    (buf : Bytes) (n : ℕ) {crc : ℕ}
    → read_crc buf (last_off n) ≡ ok crc
    → (k : ℕ) × (n ≡ suc k) × (crc ≡ word_at 4 buf (8 + k * 8 + 4))
unfolding read_crc last_off
read_crc-last buf zero h = absurd (ground arith)
read_crc-last buf (suc k) {crc} h =
    let e : 8 + k * 8 + 8 - 4 ≡ 8 + k * 8 + 4 = omega arith in
    let large : ltb (8 + k * 8 + 8) 4 ≡ false = ground arith in
    (k, refl, read_word-ok 4 buf (8 + k * 8 + 4) (rw (large, e) at h))

-- What a parsed file is.
pub record IsParsed (buf : Bytes) (file : RelMapFile) : Type 0 where
  pub magic_found : word_at 4 buf 0 ≡ relmapper_magic
  pub count_found : file.num_mappings ≡ word_at 4 buf 4
  pub few : file.num_mappings ≤ max_possible
  pub in_order : Sorted by_oid file.mappings
  pub same_entries : Perm file.mappings (entries buf 0 file.num_mappings)
  pub crc_found : (k : ℕ) × (file.num_mappings ≡ suc k) × (file.crc ≡ word_at 4 buf (8 + k * 8 + 4))

check_count-IsParsed :
    (buf : Bytes) {file : RelMapFile}
    → word_at 4 buf 0 ≡ relmapper_magic
    → check_count buf ≡ ok file
    → IsParsed buf file
unfolding check_count read_file sort_mappings
check_count-IsParsed buf {file} magic h =
    let (n, found, h') = >>=-eq-ok (read_word 4 buf 4) _ h in
    elim (Bool-cases (ltb max_possible n)) [
      | inl many ↦ absurd (ground (arith, many))
      | inr few ↦
          let (mappings, found', h'') = >>=-eq-ok (read_mappings buf 0 n) _ (rw few at h') in
          let (crc, found'', h''') = >>=-eq-ok (read_crc buf (last_off n)) _ h'' in
          let built : record { num_mappings = n; mappings = sort_mappings mappings; crc = crc }
              ≡ file =
            cc in
          let same = read_mappings-entries buf 0 n found' in
          subst (IsParsed buf) built (record {
            magic_found = magic;
            count_found = read_word-ok 4 buf 4 found;
            few = ground arith;
            in_order =
                sort_by-Sorted by_oid (λ a b h. ground arith) (λ a b c h k. ground arith) mappings;
            same_entries = rw (← same) (sort_by-Perm by_oid mappings);
            crc_found = read_crc-last buf n found'';
          })
    ]

-- A map that `parse_relmap` returns has the magic number in front, as many entries as the file
-- announces, 126 at most and one at least, which are the file's sorted by OID; and its checksum is
-- the filenode of the last entry in the file.
pub parse_relmap-IsParsed :
    (buf : Bytes) (file : RelMapFile) → parse_relmap buf ≡ ok file → IsParsed buf file
unfolding parse_relmap
parse_relmap-IsParsed buf file h =
    let (magic, found, h') = >>=-eq-ok (read_word 4 buf 0) _ h in
    elim (Bool-cases (magic == relmapper_magic)) [
      | inl y ↦
          let e = read_word-ok 4 buf 0 found in
          check_count-IsParsed buf (sym e ∙ (==_iff magic relmapper_magic).0 y) (rw y at h')
      | inr n ↦ absurd (ground (arith, n))
    ]
