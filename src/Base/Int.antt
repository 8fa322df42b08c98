-- ===== src/Base/Int.antt =====
-- Two's complement: the integer that a word of 8 * n bits stands for in `iN::from_ne_bytes`.
use Prim.Native.Nat.{ℕ, ◌+◌, ◌-◌, ◌*◌, ◌<◌}
use mathlib.Core.Path.{◌≡◌}
use native.Mathlib.Omega.{arith}
use pg_arrow.Base.Tests.{ltb, if◌then◌else◌}

-- `negsuc n` is -(n + 1).
pub data ℤ : Type 0 where
  pos : ℕ → ℤ
  negsuc : ℕ → ℤ

-- `w` is the word, `half` is 2 ^ (bits - 1).
abbrev pub signed : ℕ → ℕ → ℤ
signed half w = if ltb w half then pos w else negsuc (2 * half - w - 1)

-- The word of an integer that fits.
abbrev pub unsigned : ℕ → ℤ → ℕ
unsigned half (pos n) = n
unsigned half (negsuc n) = 2 * half - (n + 1)

pub unsigned-signed : (half w : ℕ) → w < 2 * half → unsigned half (signed half w) ≡ w
unsigned-signed half w h = ground arith

-- The integer fits in two's complement with `half` = 2 ^ (bits - 1).
abbrev pub Fits : ℕ → ℤ → Type 0
Fits half (pos n) = n < half
Fits half (negsuc n) = n < half

pub unsigned-lt : (half : ℕ) (z : ℤ) → Fits half z → unsigned half z < 2 * half
unsigned-lt half (pos n) h = omega arith
unsigned-lt half (negsuc n) h = omega arith

pub signed-unsigned : (half : ℕ) (z : ℤ) → Fits half z → signed half (unsigned half z) ≡ z
signed-unsigned half (pos n) h = ground arith
signed-unsigned half (negsuc n) h =
    let back : 2 * half - (2 * half - (n + 1)) - 1 ≡ n = omega arith in ground (arith, back)
