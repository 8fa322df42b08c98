-- ===== src/Types/Info/Tests.antt =====
-- The theorem on `info` at a concrete type.
use pg_arrow.Base.{◌≡◌}
use pg_arrow.Types.Defs.{PgTypeId}
use pg_arrow.Types.TypeId.{oid, type_len, align}
use pg_arrow.Types.Info.{info}
use pg_arrow.Types.Info.Agree.{align_bytes, typlen_of, info_agrees}

info_agrees_example :
    ((info PgTypeId.int8).oid ≡ oid PgTypeId.int8)
    × ((info PgTypeId.int8).typlen ≡ typlen_of (type_len PgTypeId.int8))
    × (align_bytes (info PgTypeId.int8).align ≡ align PgTypeId.int8)
info_agrees_example = info_agrees PgTypeId.int8
