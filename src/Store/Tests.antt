-- ===== src/Store/Tests.antt =====
-- Two tenants in one store (apps/datacore/src/repo/memory.ts).
use complete.Base.{String, [], ◌∷◌, ◌≡◌, arith, eq_iff}
use mathlib.Core.Bool.{false≢true}
use complete.Store.{Entity, get, put}
use complete.Store.Keys.{put-tenant_isolated}

abbrev Row : Type 0
Row = String × String

instance abbrev row_entity : Entity Row
row_entity = record { tenant_id = λ r. r.0; id = λ r. r.1 }

put-tenant_isolated_example :
    get {T = Row} "u" "x" (put ("t", "x") (("u", "x") ∷ []))
    ≡ get {T = Row} "u" "x" (("u", "x") ∷ [])
put-tenant_isolated_example =
    put-tenant_isolated ("t", "x") (("u", "x") ∷ []) "u" "x" (ground arith, tt) (ground arith, tt)
      (λ e. false≢true ((eq_iff "t" "u").1 e))
