-- ===== src/Heap/Tuple/Masks.antt =====
-- Block numbers in two halves, and single flags as bits.
use pg_arrow.Base.{
  zero, suc, ◌-◌, ◌≢◌, inl, inr, Bool-cases, ℕ, ◌+◌, ◌*◌, ◌/◌, ◌%◌, ◌^◌, ◌<◌, ◌≡◌, ◌↔◌, refl, arith,
  true, not, ◌==◌, ==_iff, bit_and, bit_or,
}
use pg_arrow.Base.Bits.{bit_or-add, bit_and-field_at, pow_pos}
use pg_arrow.Heap.Tuple.{
  from_u32, block_number, InfoMask, mask_value, HeapTupleHeaderData, has_flag,
}

-- Splitting a block number in two halves and joining them gives it back, and so the other way round
-- for halves of 16 bits.
pub block_number-from_u32 :
    (n hi lo : ℕ)
    → n < 2 ^ 32
    → hi < 2 ^ 16
    → lo < 2 ^ 16
    → (block_number (from_u32 n) ≡ n)
      × (from_u32 (block_number (record { bi_hi = hi; bi_lo = lo }))
          ≡ record { bi_hi = hi; bi_lo = lo })
unfolding block_number from_u32
block_number-from_u32 n hi lo hn hh hl = (joined, split)
  where
    exact : (h : ℕ) → h < 2 ^ 16 → h * 2 ^ 16 % 2 ^ 32 ≡ h * 2 ^ 16
    exact h p = omega arith

    join : (h l : ℕ) → h < 2 ^ 16 → l < 2 ^ 16 → bit_or (h * 2 ^ 16 % 2 ^ 32) l ≡ h * 2 ^ 16 + l
    join h l p q = rw (exact h p) (bit_or-add 16 h l q)

    joined : bit_or (n / 2 ^ 16 % 2 ^ 16 * 2 ^ 16 % 2 ^ 32) (n % 2 ^ 16) ≡ n
    joined = omega (arith, join (n / 2 ^ 16 % 2 ^ 16) (n % 2 ^ 16))

    split : from_u32 (bit_or (hi * 2 ^ 16 % 2 ^ 32) lo) ≡ record { bi_hi = hi; bi_lo = lo }
    split = rw (join hi lo hh hl) (ground arith)

-- The bit of each flag.
unfoldable pub bit_of : InfoMask → ℕ
bit_of InfoMask.has_null = 0
bit_of InfoMask.has_var_width = 1
bit_of InfoMask.has_external = 2
bit_of InfoMask.has_oid_old = 3
bit_of InfoMask.xmax_keyshr_lock = 4
bit_of InfoMask.combo_cid = 5
bit_of InfoMask.xmax_excl_lock = 6
bit_of InfoMask.xmax_lock_only = 7
bit_of InfoMask.xmin_committed = 8
bit_of InfoMask.xmin_invalid = 9
bit_of InfoMask.xmax_committed = 10
bit_of InfoMask.xmax_invalid = 11
bit_of InfoMask.xmax_is_multi = 12
bit_of InfoMask.updated = 13
bit_of InfoMask.moved_off = 14
bit_of InfoMask.moved_in = 15

mask_value-bit : (m : InfoMask) → (2 ^ 1 - 1) * 2 ^ bit_of m ≡ mask_value m
unfolding mask_value bit_of
mask_value-bit InfoMask.has_null = refl
mask_value-bit _ = refl

-- A product with a positive number is zero only where the other factor is.
scaled-ne-zero : (b p : ℕ) → 0 < p → (b * p ≡ 0) ↔ (b ≡ 0)
scaled-ne-zero zero p h = ((λ e. refl), (λ e. omega arith))
scaled-ne-zero (suc b) p h = ((λ e. absurd (grind arith)), (λ e. absurd (omega arith)))

nonzero_test :
    (k j a m : ℕ)
    → (2 ^ j - 1) * 2 ^ k ≡ m
    → (not (bit_and a m == 0) ≡ true) ↔ (a / 2 ^ k % 2 ^ j ≢ 0)
nonzero_test k j a m e =
    let field : bit_and a m ≡ a / 2 ^ k % 2 ^ j * 2 ^ k = bit_and-field_at k j a e in
    let z = scaled-ne-zero (a / 2 ^ k % 2 ^ j) (2 ^ k) (pow_pos k) in
    rw field (
      (λ t z'. ground (arith, z.1 z')),
      (λ n. elim (Bool-cases (a / 2 ^ k % 2 ^ j * 2 ^ k == 0)) [
        | inl y ↦ absurd (n (z.0 ((==_iff _ 0).0 y)))
        | inr y ↦ rw y
      ]),
    )

-- A flag is set exactly when its bit of `t_infomask` is one.
pub has_flag-bit :
    (h : HeapTupleHeaderData) (m : InfoMask)
    → (has_flag h (mask_value m) ≡ true) ↔ (h.t_infomask / 2 ^ bit_of m % 2 ≡ 1)
unfolding has_flag
has_flag-bit h m =
    let test = nonzero_test (bit_of m) 1 h.t_infomask (mask_value m) (mask_value-bit m) in
    ((λ t. omega (arith, test.0 t)), (λ b. test.1 (λ z. absurd (omega arith))))

-- `InfoMask::XMIN_FROZEN`
unfoldable pub xmin_frozen : ℕ
unfolding mask_value
xmin_frozen = bit_or (mask_value InfoMask.xmin_committed) (mask_value InfoMask.xmin_invalid)
