-- ===== src/Types/Catalog/Values.antt =====
-- What a field of a catalog row says of its column, by the kind of the datum.
use pg_arrow.Base.{
  ℕ, ◌<◌, ◌≡◌, refl, sym, false, Bool, Bytes, List, [], Option, none, some, length, get_elem?,
  get_elem?-in,
}
use mathlib.Core.Path.{subst}
use pg_arrow.Base.Int.{ℤ, pos}
use pg_arrow.Types.Datum.{PgDatum}
use pg_arrow.Types.Catalog.Cursor.{as_u32, as_i32, as_i16, as_f32, as_bool, as_u8, as_name_str}
use pg_arrow.Types.Catalog.Reads.{present, datum_of}

-- The number of an OID or of a transaction, and else 0.
abbrev pub IsU32 : PgDatum → ℕ → Type 0
IsU32 (PgDatum.oid v) n = n ≡ v
IsU32 (PgDatum.xid v) n = n ≡ v
IsU32 _ n = n ≡ 0

abbrev pub IsI32 : PgDatum → ℤ → Type 0
IsI32 (PgDatum.int4 v) a = a ≡ v
IsI32 _ a = a ≡ pos 0

abbrev pub IsI16 : PgDatum → ℤ → Type 0
IsI16 (PgDatum.int2 v) a = a ≡ v
IsI16 _ a = a ≡ pos 0

abbrev pub IsF32 : PgDatum → ℕ → Type 0
IsF32 (PgDatum.float4 v) a = a ≡ v
IsF32 _ a = a ≡ 0

abbrev pub IsBool : PgDatum → Bool → Type 0
IsBool (PgDatum.bool v) a = a ≡ v
IsBool _ a = a ≡ false

abbrev pub IsU8 : PgDatum → ℕ → Type 0
IsU8 (PgDatum.char v) a = a ≡ v
IsU8 _ a = a ≡ 0

abbrev pub IsText : PgDatum → Bytes → Type 0
IsText (PgDatum.text v) a = a ≡ v
IsText _ a = a ≡ []

-- Column `i` is there, and its datum says `a`.
abbrev pub ColumnIs : {A : Type 0} → List PgDatum → ℕ → (PgDatum → A → Type 0) → A → Type 0
ColumnIs row i Is a = (d : PgDatum) × (get_elem? row i ≡ some d) × Is d a

convert-ColumnIs :
    {A : Type 0} (Is : PgDatum → A → Type 0) (convert : Option PgDatum → A)
    → ((d : PgDatum) → Is d (convert (present d)))
    → (row : List PgDatum) (i : ℕ) → i < length row
    → ColumnIs row i Is (convert (datum_of row i))
unfolding datum_of
convert-ColumnIs Is convert holds row i h =
    let (d, there) = get_elem?-in row i h in
    (
      d,
      there,
      subst (λ (o : Option PgDatum). Is d (convert (elim o [ none ↦ none | some x ↦ present x ])))
          (sym there) (holds d),
    )

as_u32-IsU32 : (d : PgDatum) → IsU32 d (as_u32 (present d))
unfolding as_u32 present
as_u32-IsU32 (PgDatum.oid v) = refl
as_u32-IsU32 (PgDatum.xid v) = refl
as_u32-IsU32 _ = refl

pub column-IsU32 :
    (row : List PgDatum) (i : ℕ) → i < length row → ColumnIs row i IsU32 (as_u32 (datum_of row i))
column-IsU32 = convert-ColumnIs IsU32 as_u32 as_u32-IsU32

as_i32-IsI32 : (d : PgDatum) → IsI32 d (as_i32 (present d))
unfolding as_i32 present
as_i32-IsI32 (PgDatum.int4 v) = refl
as_i32-IsI32 _ = refl

pub column-IsI32 :
    (row : List PgDatum) (i : ℕ) → i < length row → ColumnIs row i IsI32 (as_i32 (datum_of row i))
column-IsI32 = convert-ColumnIs IsI32 as_i32 as_i32-IsI32

as_i16-IsI16 : (d : PgDatum) → IsI16 d (as_i16 (present d))
unfolding as_i16 present
as_i16-IsI16 (PgDatum.int2 v) = refl
as_i16-IsI16 _ = refl

pub column-IsI16 :
    (row : List PgDatum) (i : ℕ) → i < length row → ColumnIs row i IsI16 (as_i16 (datum_of row i))
column-IsI16 = convert-ColumnIs IsI16 as_i16 as_i16-IsI16

as_f32-IsF32 : (d : PgDatum) → IsF32 d (as_f32 (present d))
unfolding as_f32 present
as_f32-IsF32 (PgDatum.float4 v) = refl
as_f32-IsF32 _ = refl

pub column-IsF32 :
    (row : List PgDatum) (i : ℕ) → i < length row → ColumnIs row i IsF32 (as_f32 (datum_of row i))
column-IsF32 = convert-ColumnIs IsF32 as_f32 as_f32-IsF32

as_bool-IsBool : (d : PgDatum) → IsBool d (as_bool (present d))
unfolding as_bool present
as_bool-IsBool (PgDatum.bool v) = refl
as_bool-IsBool _ = refl

pub column-IsBool :
    (row : List PgDatum) (i : ℕ) → i < length row → ColumnIs row i IsBool (as_bool (datum_of row i))
column-IsBool = convert-ColumnIs IsBool as_bool as_bool-IsBool

as_u8-IsU8 : (d : PgDatum) → IsU8 d (as_u8 (present d))
unfolding as_u8 present
as_u8-IsU8 (PgDatum.char v) = refl
as_u8-IsU8 _ = refl

pub column-IsU8 :
    (row : List PgDatum) (i : ℕ) → i < length row → ColumnIs row i IsU8 (as_u8 (datum_of row i))
column-IsU8 = convert-ColumnIs IsU8 as_u8 as_u8-IsU8

as_name_str-IsText : (d : PgDatum) → IsText d (as_name_str (present d))
unfolding as_name_str present
as_name_str-IsText (PgDatum.text v) = refl
as_name_str-IsText _ = refl

pub column-IsText :
    (row : List PgDatum) (i : ℕ)
    → i < length row
    → ColumnIs row i IsText (as_name_str (datum_of row i))
column-IsText = convert-ColumnIs IsText as_name_str as_name_str-IsText
