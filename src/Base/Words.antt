-- ===== src/Base/Words.antt =====
-- Byte strings, and words in the server's byte order, which is little-endian on the supported
-- platforms (`from_ne_bytes` on x86 and ARM).
use Prim.Native.Nat.{ℕ, zero, suc, ◌+◌, ◌-◌, ◌*◌, ◌/◌, ◌%◌, ◌^◌, ◌≤◌, ◌<◌}
use mathlib.Core.Path.{◌≡◌, ◌∙◌, refl, ap, subst}
use mathlib.Core.List.{List, [], ◌∷◌, ◌++◌}
use native.Mathlib.Omega.{arith}
use native.Mathlib.Nat.{pow-suc}
use pg_arrow.Base.Lists.{
  length, length-append, drop, sub_list, get_range, get_range-in, All, length-sub_list, take_all,
  drop_all, All-take, All-drop,
}
use pg_arrow.Base.Errors.{Result, ok, ◌>>=◌, unwrap}

abbrev pub Bytes : Type 0
Bytes = List ℕ

abbrev pub IsByte : ℕ → Type 0
IsByte b = b < 256

-- `from_ne_bytes` of as many bytes as the word has.
unfoldable pub from_le : Bytes → ℕ
from_le [] = 0
from_le (b ∷ bs) = b + 256 * from_le bs

-- The `n` lowest bytes of a number, lowest first: `to_ne_bytes`.
unfoldable pub to_le : ℕ → ℕ → Bytes
to_le zero v = []
to_le (suc n) v = (v % 256) ∷ to_le n (v / 256)

-- `xs[a..b]`
unfoldable pub slice {ℓ κ} : {E : Type ℓ} {A : Type κ} → List A → ℕ → ℕ → Result E (List A)
slice xs a b = unwrap (get_range xs a b)

pub slice-in {ℓ κ} :
    {E : Type ℓ} {A : Type κ} (xs : List A) (a b : ℕ)
    → a ≤ b
    → b ≤ length xs
    → slice {E = E} xs a b ≡ ok (sub_list xs a b)
unfolding slice
slice-in xs a b p q = rw (get_range-in xs a b p q)

-- `uN::from_ne_bytes(xs[a..a + n].try_into().unwrap())`, and its value.
abbrev pub word_at : ℕ → Bytes → ℕ → ℕ
word_at n xs a = from_le (sub_list xs a (a + n))

unfoldable pub read_word {ℓ} : {E : Type ℓ} → ℕ → Bytes → ℕ → Result E ℕ
read_word n xs a = slice xs a (a + n) >>= λ bs. ok (from_le bs)

pub read_word-in {ℓ} :
    {E : Type ℓ} (n : ℕ) (xs : Bytes) (a : ℕ)
    → a + n ≤ length xs
    → read_word {E = E} n xs a ≡ ok (word_at n xs a)
unfolding read_word
read_word-in n xs a h = rw (slice-in xs a (a + n) (omega arith) h)

pub length-to_le : (n v : ℕ) → length (to_le n v) ≡ n
unfolding to_le
length-to_le zero v = refl
length-to_le (suc n) v = ap suc (length-to_le n (v / 256))

pub to_le-IsByte : (n v : ℕ) → All IsByte (to_le n v)
unfolding to_le
to_le-IsByte zero v = tt
to_le-IsByte (suc n) v = (omega arith, to_le-IsByte n (v / 256))

-- `v` mod 256 ^ n, in the form in which the bytes give it.
pub from_le-to_le : (n v : ℕ) → v < 256 ^ n → from_le (to_le n v) ≡ v
unfolding from_le to_le
from_le-to_le zero v h = omega arith
from_le-to_le (suc n) v h =
    let smaller : v / 256 < 256 ^ n = omega (arith, pow-suc 256 n) in
    omega (arith, from_le-to_le n (v / 256) smaller)

pub from_le-lt : (bs : Bytes) → All IsByte bs → from_le bs < 256 ^ length bs
unfolding from_le
from_le-lt [] h = omega arith
from_le-lt (b ∷ bs) (hb, hbs) = omega (arith, from_le-lt bs hbs, pow-suc 256 (length bs), hb)

pub word_at-lt :
    (n : ℕ) (bs : Bytes) (a : ℕ) → All IsByte bs → a + n ≤ length bs → word_at n bs a < 256 ^ n
word_at-lt n bs a h p =
    let e : length (sub_list bs a (a + n)) ≡ n =
      omega (arith, length-sub_list bs a (a + n) (omega arith) p) in
    subst (λ (k : ℕ). word_at n bs a < 256 ^ k) e
      (from_le-lt (sub_list bs a (a + n))
        (All-take IsByte (a + n - a) (drop a bs) (All-drop IsByte a bs h)))

-- A slice that starts where `front` ends.
pub sub_list-append :
    (front mid rest : Bytes) {n : ℕ}
    → length mid ≡ n
    → sub_list (front ++ (mid ++ rest)) (length front) (length front + n) ≡ mid
sub_list-append front mid rest {n} h =
    let e : length front + n - length front ≡ n = omega arith in
    rw (e, drop_all (length front) front (mid ++ rest) refl) (take_all n mid rest h)

-- A word that stands behind `front` is read back.
pub read_word-to_le :
    {E : Type 0} (n v : ℕ) (front rest : Bytes)
    → v < 256 ^ n
    → read_word {E = E} n (front ++ (to_le n v ++ rest)) (length front) ≡ ok v
read_word-to_le n v front rest h =
    let bytes = front ++ (to_le n v ++ rest) in
    let inside : length front + n ≤ length bytes = omega (
      arith,
      length-append front (to_le n v ++ rest),
      length-append (to_le n v) rest,
      length-to_le n v,
    ) in
    read_word-in n bytes (length front) inside
    ∙ ap ok (
        ap from_le (sub_list-append front (to_le n v) rest (length-to_le n v))
        ∙ from_le-to_le n v h)
