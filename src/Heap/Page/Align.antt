-- ===== src/Heap/Page/Align.antt =====
-- `align_to` rounds up to the alignment of a type.
use pg_arrow.Base.{ℕ, ◌+◌, ◌-◌, ◌%◌, ◌^◌, ◌≤◌, ◌<◌, ◌≡◌, refl, arith}
use pg_arrow.Base.Bits.{bit_and-field_at}
use pg_arrow.Types.Defs.{PgTypeId}
use pg_arrow.Types.TypeId.{align}
use pg_arrow.Heap.Page.{align_to}

-- `r` is the least multiple of `a` from `offset` on.
abbrev pub IsAligned : ℕ → ℕ → ℕ → Type 0
IsAligned offset a r = (offset ≤ r) × (r < offset + a) × (r % a ≡ 0)

align_to_one : (offset : ℕ) → offset + 8 ≤ 2 ^ 64 → IsAligned offset 1 (align_to offset 1)
unfolding align_to
align_to_one offset h =
    let x = (offset + 1 - 1) % 2 ^ 64 in omega (arith, bit_and-field_at 0 64 x refl)

align_to_two : (offset : ℕ) → offset + 8 ≤ 2 ^ 64 → IsAligned offset 2 (align_to offset 2)
unfolding align_to
align_to_two offset h =
    let x = (offset + 2 - 1) % 2 ^ 64 in omega (arith, bit_and-field_at 1 63 x refl)

align_to_four : (offset : ℕ) → offset + 8 ≤ 2 ^ 64 → IsAligned offset 4 (align_to offset 4)
unfolding align_to
align_to_four offset h =
    let x = (offset + 4 - 1) % 2 ^ 64 in omega (arith, bit_and-field_at 2 62 x refl)

align_to_eight : (offset : ℕ) → offset + 8 ≤ 2 ^ 64 → IsAligned offset 8 (align_to offset 8)
unfolding align_to
align_to_eight offset h =
    let x = (offset + 8 - 1) % 2 ^ 64 in omega (arith, bit_and-field_at 3 61 x refl)

-- Rounding an offset up to the alignment of any type gives the least multiple of that alignment from
-- the offset on, while the sum stays in 64 bits.
pub align_to-align :
    (t : PgTypeId) (offset : ℕ)
    → offset + 8 ≤ 2 ^ 64
    → IsAligned offset (align t) (align_to offset (align t))
unfolding align
align_to-align PgTypeId.bool offset h = align_to_one offset h
align_to-align t offset h = search (align_to_one, align_to_two, align_to_four, align_to_eight)
