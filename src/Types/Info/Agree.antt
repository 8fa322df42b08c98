-- ===== src/Types/Info/Agree.antt =====
-- The metadata of `info` agrees with `oid`, `type_len` and `align` on every type.
use pg_arrow.Base.{ℕ, ◌≡◌, refl}
use pg_arrow.Base.Int.{ℤ, pos, negsuc}
use pg_arrow.Types.Defs.{PgTypeId, PgTypeLen, PgAlign}
use pg_arrow.Types.TypeId.{oid, type_len, align}
use pg_arrow.Types.Info.{info}

-- `PgAlign as usize`.
unfoldable pub align_bytes : PgAlign → ℕ
align_bytes PgAlign.char = 1
align_bytes PgAlign.short = 2
align_bytes PgAlign.int = 4
align_bytes PgAlign.double = 8

-- `typlen` as `pg_type` writes it: -1 for a varlena, -2 for a C string, or the width.
abbrev pub typlen_of : PgTypeLen → ℤ
typlen_of (PgTypeLen.fixed n) = pos n
typlen_of PgTypeLen.varlena = negsuc 0
typlen_of PgTypeLen.c_string = negsuc 1

-- For every type, the OID, the length and the alignment in `info` are those of `oid`, `type_len` and
-- `align`.
pub info_agrees :
    (t : PgTypeId)
    → ((info t).oid ≡ oid t)
      × ((info t).typlen ≡ typlen_of (type_len t))
      × (align_bytes (info t).align ≡ align t)
unfolding info oid type_len align align_bytes
info_agrees PgTypeId.bool = (refl, refl, refl)
info_agrees _ = (refl, refl, refl)
