-- ===== src/Base/Utf8.antt =====
-- `std::str::from_utf8`: the well-formed UTF-8 byte sequences, and how far a byte string holds them.
use pg_arrow.Base.Tests.{leb, ltb, ◌==◌, if◌then◌else◌}
use pg_arrow.Base.Words.{Bytes}
use Prim.Native.Nat.{ℕ, ◌+◌}
use mathlib.Core.Bool.{Bool, ◌&&◌}
use mathlib.Core.List.{[], ◌∷◌}
use mathlib.Core.Option.{Option, none, some}

abbrev within : ℕ → ℕ → ℕ → Bool
within lo hi b = leb lo b && leb b hi

abbrev is_tail : ℕ → Bool
is_tail = within 0x80 0xbf

-- The second byte of a sequence of three or four bytes, after its first byte.
second_ok : ℕ → ℕ → Bool
second_ok a b =
    if a == 0xe0
    then within 0xa0 0xbf b
    else if a == 0xed
    then within 0x80 0x9f b
    else if a == 0xf0
    then within 0x90 0xbf b
    else if a == 0xf4
    then within 0x80 0x8f b
    else is_tail b

-- `Utf8Error::valid_up_to` where the string is refused; `from` bytes are read already.
unfoldable pub invalid_from : ℕ → Bytes → Option ℕ
unfolding second_ok
invalid_from from [] = none
invalid_from from (a ∷ []) = if ltb a 0x80 then none else some from
invalid_from from (a ∷ b ∷ []) =
    let rest = invalid_from (from + 1) (b ∷ []) in
    if ltb a 0x80 then rest else if within 0xc2 0xdf a && is_tail b then none else some from
invalid_from from (a ∷ b ∷ c ∷ []) =
    let one = invalid_from (from + 1) (b ∷ c ∷ []) in
    let two = invalid_from (from + 2) (c ∷ []) in
    if ltb a 0x80
    then one
    else if within 0xc2 0xdf a && is_tail b
    then two
    else if within 0xe0 0xef a && second_ok a b && is_tail c
    then none
    else some from
invalid_from from (a ∷ b ∷ c ∷ d ∷ r) =
    let one = invalid_from (from + 1) (b ∷ c ∷ d ∷ r) in
    let two = invalid_from (from + 2) (c ∷ d ∷ r) in
    let three = invalid_from (from + 3) (d ∷ r) in
    let four = invalid_from (from + 4) r in
    if ltb a 0x80
    then one
    else if within 0xc2 0xdf a && is_tail b
    then two
    else if within 0xe0 0xef a && second_ok a b && is_tail c
    then three
    else if within 0xf0 0xf4 a && second_ok a b && is_tail c && is_tail d
    then four
    else some from

-- A text of ASCII bytes is accepted.
abbrev pub utf8_error : Bytes → Option ℕ
utf8_error = invalid_from 0
