-- ===== src/Base/Bits.antt =====
-- The masks and shifts of the source as arithmetic, for every word: `&` with a mask of ones, with a
-- single bit and with the complement of a mask, and `|` of words whose bits do not meet.
use Prim.Native.Nat.{
  ℕ, zero, suc, ◌+◌, ◌-◌, ◌*◌, ◌/◌, ◌%◌, ◌^◌, ◌≤◌, ◌<◌, min, max, bit_and, bit_or, digits,
  bit_and-bitwise, bit_or-bitwise,
}
use mathlib.Core.Path.{◌≡◌, refl, sym, ap, ◌∙◌}
use native.Mathlib.Omega.{arith}
use native.Mathlib.Nat.{
  pow-suc, pow-succ', one-le-pow, mul-add-mod_self_right, mod-eq_of_lt, mod-lt, div-add-mod',
  div-div-eq-div-mul,
}

-- `&` digit by digit, on fuel above the first word.
abbrev and_on : ℕ → ℕ → ℕ → ℕ
and_on n a b = digits (λ d. zero) min n a b

and_on_fuel : (fuel more x y : ℕ) → x ≤ fuel → x ≤ more → and_on fuel x y ≡ and_on more x y
and_on_fuel zero zero x y p q = refl
and_on_fuel zero (suc more) zero y p q = refl
and_on_fuel zero (suc more) (suc x) y p q = absurd (omega arith)
and_on_fuel (suc fuel) zero zero y p q = refl
and_on_fuel (suc fuel) zero (suc x) y p q = absurd (omega arith)
and_on_fuel (suc fuel) (suc more) zero y p q = refl
and_on_fuel (suc fuel) (suc more) (suc x) y p q =
    omega (arith, and_on_fuel fuel more (suc x / 2) (y / 2) (omega arith) (omega arith))

pub bit_and-halves : (x y : ℕ) → bit_and x y ≡ 2 * bit_and (x / 2) (y / 2) + min (x % 2) (y % 2)
bit_and-halves zero y = omega (arith, bit_and-bitwise 0 y, bit_and-bitwise 0 (y / 2))
bit_and-halves (suc x) y = omega (
  arith,
  bit_and-bitwise (suc x) y,
  bit_and-bitwise (suc x / 2) (y / 2),
  and_on_fuel x (suc x / 2) (suc x / 2) (y / 2) (omega arith) (omega arith),
)

pub zero-bit_and : (y : ℕ) → bit_and 0 y ≡ 0
zero-bit_and y = bit_and-bitwise 0 y

bit_and-zero_fuel : (fuel x : ℕ) → x ≤ fuel → bit_and x 0 ≡ 0
bit_and-zero_fuel fuel zero h = refl
bit_and-zero_fuel zero (suc x) h = absurd (omega arith)
bit_and-zero_fuel (suc fuel) (suc x) h =
    omega (arith, bit_and-halves (suc x) 0, bit_and-zero_fuel fuel (suc x / 2) (omega arith))

pub bit_and-zero : (x : ℕ) → bit_and x 0 ≡ 0
bit_and-zero x = bit_and-zero_fuel x x (omega arith)

-- A quotient and a remainder fix each other.
pub mod_of_parts : (q r m : ℕ) → r < m → (q * m + r) % m ≡ r
mod_of_parts q r m h = mul-add-mod_self_right q m r ∙ mod-eq_of_lt h

pub mod_double : (a m : ℕ) → 0 < m → a % (m * 2) ≡ 2 * (a / 2 % m) + a % 2
mod_double a m h =
    let q = a / 2 / m in
    let r = a / 2 % m in
    let low : r < m = mod-lt (a / 2) h in
    let parts : q * m + r ≡ a / 2 = div-add-mod' (a / 2) m in
    let whole : a ≡ q * (m * 2) + (2 * r + a % 2) = omega (arith, ap (λ (t : ℕ). t * 2) parts) in
    ap (λ (t : ℕ). t % (m * 2)) whole ∙ mod_of_parts q (2 * r + a % 2) (m * 2) (omega arith)

pub pow_pos : (k : ℕ) → 0 < 2 ^ k
pow_pos k = one-le-pow k 2 (omega arith)

-- The mask of `k` ones.
pub bit_and-ones : (k a : ℕ) → bit_and a (2 ^ k - 1) ≡ a % 2 ^ k
bit_and-ones zero a = omega (arith, bit_and-zero a)
bit_and-ones (suc k) a =
    let half : (2 ^ suc k - 1) / 2 ≡ 2 ^ k - 1 = omega (arith, pow-suc 2 k, pow_pos k) in
    let odd : (2 ^ suc k - 1) % 2 ≡ 1 = omega (arith, pow-suc 2 k, pow_pos k) in
    let step : bit_and a (2 ^ suc k - 1) ≡ 2 * bit_and (a / 2) (2 ^ k - 1) + a % 2 =
      rw (← half) (omega (arith, bit_and-halves a (2 ^ suc k - 1), odd)) in
    omega (
      arith,
      step,
      bit_and-ones k (a / 2),
      ap (λ (t : ℕ). a % t) (pow-suc 2 k),
      mod_double a (2 ^ k) (pow_pos k),
    )

-- The `j` bits above bit `k`, in place.
pub bit_and-field : (k j a : ℕ) → bit_and a ((2 ^ j - 1) * 2 ^ k) ≡ a / 2 ^ k % 2 ^ j * 2 ^ k
bit_and-field zero j a =
    let mask : (2 ^ j - 1) * 2 ^ 0 ≡ 2 ^ j - 1 = omega arith in
    let whole : a / 2 ^ 0 ≡ a = omega arith in rw (mask, whole) (omega (arith, bit_and-ones j a))
bit_and-field (suc k) j a =
    let m = (2 ^ j - 1) * 2 ^ suc k in
    let twice : m ≡ 2 * ((2 ^ j - 1) * 2 ^ k) =
      omega (arith, ap (λ (t : ℕ). (2 ^ j - 1) * t) (pow-succ' 2 k)) in
    let half : m / 2 ≡ (2 ^ j - 1) * 2 ^ k = omega (arith, twice) in
    let quotient : a / 2 ^ suc k ≡ a / 2 / 2 ^ k =
      rw (pow-succ' 2 k) (sym (div-div-eq-div-mul a 2 (2 ^ k))) in
    let step : bit_and a m ≡ 2 * bit_and (a / 2) ((2 ^ j - 1) * 2 ^ k) =
      rw (← half) (omega (arith, bit_and-halves a m, twice)) in
    rw quotient (
      omega (
        arith,
        step,
        bit_and-field k j (a / 2),
        ap (λ (t : ℕ). a / 2 / 2 ^ k % 2 ^ j * t) (pow-succ' 2 k),
      ))

-- `|` digit by digit, on fuel above the first word.
abbrev or_on : ℕ → ℕ → ℕ → ℕ
or_on n a b = digits (λ d. d) max n a b

or_on_fuel : (fuel more x y : ℕ) → x ≤ fuel → x ≤ more → or_on fuel x y ≡ or_on more x y
or_on_fuel zero zero x y p q = refl
or_on_fuel zero (suc more) zero y p q = refl
or_on_fuel zero (suc more) (suc x) y p q = absurd (omega arith)
or_on_fuel (suc fuel) zero zero y p q = refl
or_on_fuel (suc fuel) zero (suc x) y p q = absurd (omega arith)
or_on_fuel (suc fuel) (suc more) zero y p q = refl
or_on_fuel (suc fuel) (suc more) (suc x) y p q =
    omega (arith, or_on_fuel fuel more (suc x / 2) (y / 2) (omega arith) (omega arith))

zero-bit_or : (y : ℕ) → bit_or 0 y ≡ y
zero-bit_or y = bit_or-bitwise 0 y

pub bit_or-halves : (x y : ℕ) → bit_or x y ≡ 2 * bit_or (x / 2) (y / 2) + max (x % 2) (y % 2)
bit_or-halves zero y = omega (arith, zero-bit_or y, zero-bit_or (y / 2))
bit_or-halves (suc x) y = omega (
  arith,
  bit_or-bitwise (suc x) y,
  bit_or-bitwise (suc x / 2) (y / 2),
  or_on_fuel x (suc x / 2) (suc x / 2) (y / 2) (omega arith) (omega arith),
)

bit_or-zero_fuel : (fuel x : ℕ) → x ≤ fuel → bit_or x 0 ≡ x
bit_or-zero_fuel fuel zero h = refl
bit_or-zero_fuel zero (suc x) h = absurd (omega arith)
bit_or-zero_fuel (suc fuel) (suc x) h =
    omega (arith, bit_or-halves (suc x) 0, bit_or-zero_fuel fuel (suc x / 2) (omega arith))

-- The bits of the two words do not meet.
pub bit_or-add : (k h l : ℕ) → l < 2 ^ k → bit_or (h * 2 ^ k) l ≡ h * 2 ^ k + l
bit_or-add zero h l p =
    let e : l ≡ 0 = omega arith in
    rw e (omega (arith, bit_or-zero_fuel (h * 2 ^ 0) (h * 2 ^ 0) (omega arith)))
bit_or-add (suc k) h l p =
    let x = h * 2 ^ suc k in
    let twice : x ≡ 2 * (h * 2 ^ k) = omega (arith, ap (λ (t : ℕ). h * t) (pow-succ' 2 k)) in
    let half : x / 2 ≡ h * 2 ^ k = omega (arith, twice) in
    let low : l / 2 < 2 ^ k = omega (arith, pow-succ' 2 k) in
    let step : bit_or x l ≡ 2 * bit_or (h * 2 ^ k) (l / 2) + l % 2 =
      rw (← half) (omega (arith, bit_or-halves x l, twice)) in
    omega (arith, step, bit_or-add k h (l / 2) low, twice)

-- The source's masks.
pub bit_and-field_at :
    (k j a : ℕ) {m : ℕ} → (2 ^ j - 1) * 2 ^ k ≡ m → bit_and a m ≡ a / 2 ^ k % 2 ^ j * 2 ^ k
bit_and-field_at k j a e = rw (← e) (bit_and-field k j a)

bit_or_comm_fuel : (fuel x y : ℕ) → x ≤ fuel → y ≤ fuel → bit_or x y ≡ bit_or y x
bit_or_comm_fuel zero x y p q = rw (let e : x ≡ y = omega arith in e) refl
bit_or_comm_fuel (suc fuel) x y p q = omega (
  arith,
  bit_or-halves x y,
  bit_or-halves y x,
  bit_or_comm_fuel fuel (x / 2) (y / 2) (omega arith) (omega arith),
)

pub bit_or_comm : (x y : ℕ) → bit_or x y ≡ bit_or y x
bit_or_comm x y = bit_or_comm_fuel (x + y) x y (omega arith) (omega arith)
