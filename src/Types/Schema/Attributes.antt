-- ===== src/Types/Schema/Attributes.antt =====
-- The schema built from the rows of `pg_attribute`.
use mathlib.Core.List.Perm
use pg_arrow.Base.{
  ℕ, ◌≤◌, ◌<◌, ◌≡◌, ◌⊎◌, refl, arith, true, false, not, Bool-cases, inl, inr, Bytes, List, [], ◌∷◌,
  map, All, Result, ok, err, panic,
}
use pg_arrow.Base.Int.{ℤ, pos, negsuc}
use pg_arrow.Base.Sort.{Sorted, sort_by-Perm, sort_by-All, sort_by-Sorted}
use pg_arrow.Types.Defs.{PgTypeId}
use pg_arrow.Types.TypeId.{oid, try_from}
use pg_arrow.Types.TypeId.RoundTrip.{try_from_iff}
use pg_arrow.Types.Schema.{
  PgColumn, PgSchema, PgAttribute, type_or_text, from_attribute, from_attributes, leb_ℤ, by_attnum,
  is_positive, is_user_attr, user_attrs, sort_by_attnum,
}
use pg_arrow.Types.Schema.Split.{Split, keep-Split, leave-Split, Perm-Split, both-Split}

leb_ℤ-total : (a b : ℤ) → leb_ℤ a b ≡ false → leb_ℤ b a ≡ true
unfolding leb_ℤ
leb_ℤ-total (pos a) (pos b) h = ground arith
leb_ℤ-total (pos a) (negsuc b) h = refl
leb_ℤ-total (negsuc a) (pos b) h = cc
leb_ℤ-total (negsuc a) (negsuc b) h = ground arith

leb_ℤ-trans : (a b c : ℤ) → leb_ℤ a b ≡ true → leb_ℤ b c ≡ true → leb_ℤ a c ≡ true
unfolding leb_ℤ
leb_ℤ-trans (pos a) (pos b) (pos c) h k = ground arith
leb_ℤ-trans (pos a) (pos b) (negsuc c) h k = k
leb_ℤ-trans (pos a) (negsuc b) c h k = cc
leb_ℤ-trans (negsuc a) b (pos c) h k = refl
leb_ℤ-trans (negsuc a) (pos b) (negsuc c) h k = cc
leb_ℤ-trans (negsuc a) (negsuc b) (negsuc c) h k = ground arith

abbrev pub IsPositive : ℤ → Type 0
IsPositive (pos n) = 0 < n
IsPositive (negsuc n) = ⊥

abbrev pub AtMost : ℤ → ℤ → Type 0
AtMost (pos a) (pos b) = a ≤ b
AtMost (pos a) (negsuc b) = ⊥
AtMost (negsuc a) (pos b) = Unit {0}
AtMost (negsuc a) (negsuc b) = b ≤ a

-- A column of the table's own that is not dropped.
abbrev pub IsUser : PgAttribute → Type 0
IsUser a = (a.attisdropped ≡ false) × IsPositive a.attnum

-- In the order of `attnum`.
abbrev pub InOrder : List PgAttribute → Type 0
InOrder [] = Unit {0}
InOrder (a ∷ attrs) = All (λ b. AtMost a.attnum b.attnum) attrs × InOrder attrs

-- The type of an OID, and `text` where no type has it.
abbrev pub IsType : ℕ → PgTypeId → Type 0
IsType n t = (oid t ≡ n) ⊎ ((¬ ((u : PgTypeId) × (oid u ≡ n))) × (t ≡ PgTypeId.text))

abbrev pub IsColumn : PgAttribute → PgColumn → Type 0
IsColumn a c =
    (c.name ≡ a.attname)
    × IsType a.atttypid c.type_id
    × (c.nullable ≡ not a.attnotnull)
    × (c.typmod ≡ a.atttypmod)

-- One column for each attribute.
abbrev pub AreColumns : List PgAttribute → List PgColumn → Type 0
AreColumns [] [] = Unit {0}
AreColumns (a ∷ attrs) (c ∷ columns) = IsColumn a c × AreColumns attrs columns
AreColumns _ _ = ⊥

-- The columns are those of exactly the attributes with the property, in the order of `attnum`.
abbrev pub IsSchema : (PgAttribute → Type 0) → Bytes → List PgAttribute → PgSchema → Type 0
IsSchema P name attrs schema =
    (sorted : List PgAttribute) × (schema.name ≡ name)
    × AreColumns sorted schema.columns
    × InOrder sorted
    × All P sorted
    × Split P sorted attrs

is_positive-IsPositive : (z : ℤ) → is_positive z ≡ true → IsPositive z
unfolding is_positive
is_positive-IsPositive (pos n) h = ground arith
is_positive-IsPositive (negsuc n) h = cc

not-IsPositive : (z : ℤ) → is_positive z ≡ false → ¬ IsPositive z
unfolding is_positive
not-IsPositive (pos n) h p = ground arith
not-IsPositive (negsuc n) h p = p

is_user_attr-IsUser : (a : PgAttribute) → is_user_attr a ≡ true → IsUser a
unfolding is_user_attr
is_user_attr-IsUser a h = elim (Bool-cases a.attisdropped) [
  | inl dropped ↦ absurd (ground (arith, dropped))
  | inr kept ↦ (kept, is_positive-IsPositive a.attnum (rw kept at h))
]

not-IsUser : (a : PgAttribute) → is_user_attr a ≡ false → ¬ IsUser a
unfolding is_user_attr
not-IsUser a h (kept, positive) = not-IsPositive a.attnum (rw kept at h) positive

user_attrs-Split :
    (attrs : List PgAttribute)
    → All IsUser (user_attrs attrs) × Split IsUser (user_attrs attrs) attrs
unfolding user_attrs
user_attrs-Split [] = (tt, ([], tt, Perm.refl []))
user_attrs-Split (a ∷ attrs) =
    let (all, split) = user_attrs-Split attrs in
    elim (Bool-cases (is_user_attr a)) [
      | inl user ↦
          rw user
            ((is_user_attr-IsUser a user, all), keep-Split IsUser a (user_attrs attrs) attrs split)
      | inr other ↦
          rw other (all, leave-Split IsUser a (user_attrs attrs) attrs (not-IsUser a other) split)
    ]

leb_ℤ-AtMost : (a b : ℤ) → leb_ℤ a b ≡ true → AtMost a b
unfolding leb_ℤ
leb_ℤ-AtMost (pos a) (pos b) h = ground arith
leb_ℤ-AtMost (pos a) (negsuc b) h = cc
leb_ℤ-AtMost (negsuc a) (pos b) h = tt
leb_ℤ-AtMost (negsuc a) (negsuc b) h = ground arith

All-AtMost :
    (a : PgAttribute) (attrs : List PgAttribute)
    → All (λ b. by_attnum a b ≡ true) attrs
    → All (λ b. AtMost a.attnum b.attnum) attrs
All-AtMost a [] h = tt
All-AtMost a (b ∷ attrs) (h, hs) = (leb_ℤ-AtMost a.attnum b.attnum h, All-AtMost a attrs hs)

Sorted-InOrder : (attrs : List PgAttribute) → Sorted by_attnum attrs → InOrder attrs
Sorted-InOrder [] h = tt
Sorted-InOrder (a ∷ attrs) (h, hs) = (All-AtMost a attrs h, Sorted-InOrder attrs hs)

type_or_text-IsType : (n : ℕ) → IsType n (type_or_text (try_from n))
type_or_text-IsType n = go (try_from n) refl
  where
    go : (r : Result ℕ PgTypeId) → try_from n ≡ r → IsType n (type_or_text r)
    go (ok t) e = unfold type_or_text in inl ((try_from_iff n t).0 e)
    go (err k) e =
        unfold type_or_text in
        inr (λ (u, o). let p : try_from n ≡ ok u = (try_from_iff n u).1 o in cc, refl)
    go panic e =
        unfold type_or_text in
        inr (λ (u, o). let p : try_from n ≡ ok u = (try_from_iff n u).1 o in cc, refl)

map-AreColumns : (attrs : List PgAttribute) → AreColumns attrs (map from_attribute attrs)
unfolding from_attribute
map-AreColumns [] = tt
map-AreColumns (a ∷ attrs) =
    ((refl, type_or_text-IsType a.atttypid, refl, refl), map-AreColumns attrs)

-- The attributes of the schema built from rows.
abbrev sorted_users : List PgAttribute → List PgAttribute
sorted_users attrs = sort_by_attnum (user_attrs attrs)

sorted_users-InOrder : (attrs : List PgAttribute) → InOrder (sorted_users attrs)
unfolding sort_by_attnum
sorted_users-InOrder attrs = Sorted-InOrder (sorted_users attrs) (
    sort_by-Sorted by_attnum (λ a b. leb_ℤ-total a.attnum b.attnum)
      (λ a b c. leb_ℤ-trans a.attnum b.attnum c.attnum) (user_attrs attrs))

sorted_users-All :
    (P : PgAttribute → Type 0) (attrs : List PgAttribute)
    → All P (user_attrs attrs)
    → All P (sorted_users attrs)
unfolding sort_by_attnum
sorted_users-All P attrs = sort_by-All by_attnum P (user_attrs attrs)

sorted_users-Split : (attrs : List PgAttribute) → Split IsUser (sorted_users attrs) attrs
unfolding sort_by_attnum
sorted_users-Split attrs =
    Perm-Split IsUser (sorted_users attrs) (user_attrs attrs) attrs
      (sort_by-Perm by_attnum (user_attrs attrs)) (user_attrs-Split attrs).1

-- The schema of attribute rows has the name it is given, and a column for each of exactly the user
-- attributes of the rows: those that are not dropped and have a number above 0, each as often as it
-- stands there, in the order of their numbers. A column has the name, the type modifier and the type of
-- its attribute, or `text` where its type OID is that of no type, and is nullable where the attribute
-- is not declared `NOT NULL`.
pub from_attributes-IsSchema :
    (name : Bytes) (attrs : List PgAttribute)
    → IsSchema IsUser name attrs (from_attributes name attrs)
unfolding from_attributes
from_attributes-IsSchema name attrs = (
  sorted_users attrs,
  refl,
  map-AreColumns (sorted_users attrs),
  sorted_users-InOrder attrs,
  sorted_users-All IsUser attrs (user_attrs-Split attrs).0,
  sorted_users-Split attrs,
)

module _ (P : PgAttribute → Type 0) where
  user_attrs-All : (attrs : List PgAttribute) → All P attrs → All P (user_attrs attrs)
  unfolding user_attrs
  user_attrs-All [] h = tt
  user_attrs-All (a ∷ attrs) (h, hs) = elim (Bool-cases (is_user_attr a)) [
    | inl user ↦ rw user (h, user_attrs-All attrs hs)
    | inr other ↦ rw other (user_attrs-All attrs hs)
  ]

  All-both :
      (attrs : List PgAttribute) → All P attrs → All IsUser attrs → All (λ a. P a × IsUser a) attrs
  All-both [] h k = tt
  All-both (a ∷ attrs) (h, hs) (k, ks) = ((h, k), All-both attrs hs ks)

  -- The schema built from some of the rows.
  pub from_attributes-within :
      (name : Bytes) (own attrs : List PgAttribute)
      → All P own
      → Split P own attrs
      → IsSchema (λ a. P a × IsUser a) name attrs (from_attributes name own)
  unfolding from_attributes
  from_attributes-within name own attrs all split = (
    sorted_users own,
    refl,
    map-AreColumns (sorted_users own),
    sorted_users-InOrder own,
    All-both (sorted_users own) (sorted_users-All P own (user_attrs-All own all))
        (sorted_users-All IsUser own (user_attrs-Split own).0),
    both-Split IsUser P (sorted_users own) own attrs split all (sorted_users-Split own),
  )
