-- ===== src/Heap/Page/LinePointers.antt =====
-- The three fields of a line pointer.
use pg_arrow.Base.{ℕ, ◌+◌, ◌*◌, ◌/◌, ◌^◌, ◌<◌, ◌≡◌, arith}
use pg_arrow.Base.Bits.{bit_and-ones}
use pg_arrow.Heap.Page.{lp_off, lp_flags, lp_len}

-- PostgreSQL's `ItemIdData`: 15 bits of offset, two of flags, 15 of length.
abbrev pub pack : ℕ → ℕ → ℕ → ℕ
pack off flags len = off + flags * 2 ^ 15 + len * 2 ^ 17

-- The fields of any 32-bit word are in the ranges of their bits, and packing them gives the word.
pub pack-fields :
    (w : ℕ)
    → w < 2 ^ 32
    → (lp_off w < 2 ^ 15)
      × (lp_flags w < 4)
      × (lp_len w < 2 ^ 15)
      × (pack (lp_off w) (lp_flags w) (lp_len w) ≡ w)
unfolding lp_off lp_flags lp_len
pack-fields w h =
    omega (arith, bit_and-ones 15 w, bit_and-ones 2 (w / 2 ^ 15), bit_and-ones 15 (w / 2 ^ 17))

-- The fields of a packed line pointer are those that were packed.
pub fields-pack :
    (off flags len : ℕ)
    → off < 2 ^ 15
    → flags < 4
    → len < 2 ^ 15
    → (lp_off (pack off flags len) ≡ off)
      × (lp_flags (pack off flags len) ≡ flags)
      × (lp_len (pack off flags len) ≡ len)
unfolding lp_off lp_flags lp_len
fields-pack off flags len ho hf hl =
    let w = pack off flags len in
    omega (arith, bit_and-ones 15 w, bit_and-ones 2 (w / 2 ^ 15), bit_and-ones 15 (w / 2 ^ 17))

pub lp_flags-lt : (w : ℕ) → lp_flags w < 4
unfolding lp_flags
lp_flags-lt w = omega (arith, bit_and-ones 2 (w / 2 ^ 15))
