-- ===== src/Types/TypeId/Tests.antt =====
-- The theorems on `oid`, `try_from` and `info` at concrete types.
use pg_arrow.Base.{◌≡◌, ◌↔◌, ok}
use pg_arrow.Types.Defs.{PgTypeId}
use pg_arrow.Types.TypeId.RoundTrip.{try_from_iff}
use pg_arrow.Types.TypeId.Oids.{oid, try_from}

try_from_iff_example : (try_from 23 ≡ ok PgTypeId.int4) ↔ (oid PgTypeId.int4 ≡ 23)
try_from_iff_example = try_from_iff 23 PgTypeId.int4
