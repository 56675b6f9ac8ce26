-- ===== src/Authz/Laws.antt =====
-- What an access decision allows (apps/datacore/src/authz.ts, `AuthzService`).
use complete.Base.{
  ◌⊎◌, ◌↔◌, inl, inr, String, Bool, true, false, List, [], some, ◌≡◌, ◌≢◌, refl, arith, All, Any,
}
use complete.Store.{list}
use complete.Actions.Drafts.{AuthCtx}
use complete.Authz.{
  ResourceKind, Op, PermissionPolicy, policy_entity, is_platform_admin, applies, matching,
  filters_of, decide, require,
}
use complete.Authz.Grants.{
  IsAttached, Grants, IsOperator, is_platform_admin_iff, IsAttached-none, matching-some,
}

abbrev pub attached :
    List PermissionPolicy → AuthCtx → ResourceKind → String → List PermissionPolicy
attached policies ctx kind key = list ctx.tenant_id (applies kind key) policies

decide_cases :
    (policies : List PermissionPolicy) (ctx : AuthCtx) (kind : ResourceKind) (key : String)
    (op : Op)
    → ((decide policies ctx kind key op).allowed ≡ true) ↔ (
        (is_platform_admin ctx.roles ≡ false)
        × ((attached policies ctx kind key ≡ [])
            ⊎ (matching ctx.roles op (attached policies ctx kind key) ≢ [])))
unfolding decide
decide_cases policies ctx kind key op = (λ e. ground arith, λ h. ground arith)

is_false : (b : Bool) (P : Type 0) → (b ≡ true) ↔ P → (b ≡ false) ↔ (¬ P)
is_false true P h = (λ e. absurd (cc), λ no. absurd (no (h.0 refl)))
is_false false P h = ((λ e p. let t = h.1 p in absurd (cc)), λ no. refl)

-- Access is given just in case no role of the user is one of the platform's operators, and either no
-- policy of the tenant is on the resource or a policy that is has a grant that names a role of the
-- user and has the operation.
pub decide_iff :
    (policies : List PermissionPolicy) (ctx : AuthCtx) (kind : ResourceKind) (key : String)
    (op : Op)
    → ((decide policies ctx kind key op).allowed ≡ true) ↔ (
        (¬ IsOperator ctx.roles)
        × (All (λ p. ¬ IsAttached ctx kind key p) policies
            ⊎ Any (λ p. IsAttached ctx kind key p × Grants ctx.roles op p) policies))
decide_iff policies ctx kind key op =
    let cases = decide_cases policies ctx kind key op in
    let operator =
      is_false (is_platform_admin ctx.roles) (IsOperator ctx.roles)
        (is_platform_admin_iff ctx.roles) in
    let unmanaged = IsAttached-none ctx kind key policies in
    let granted = matching-some ctx kind key ctx.roles op policies in
    (
      λ e.
          let (user, found) = cases.0 e in
          (operator.0 user, elim found [ inl h ↦ inl (unmanaged.0 h) | inr h ↦ inr (granted.0 h) ]),
      λ h.
          cases.1
            (operator.1 h.0, elim h.1 [ inl k ↦ inl (unmanaged.1 k) | inr k ↦ inr (granted.1 k) ]),
    )

-- What the filters that a caller gets are made from.
pub require_lem :
    (policies : List PermissionPolicy) (ctx : AuthCtx) (kind : ResourceKind) (key : String)
    (op : Op) (filters : List String)
    → require policies ctx kind key op ≡ some filters
    → filters ≡ filters_of (matching ctx.roles op (attached policies ctx kind key))
unfolding require decide matching filters_of
require_lem policies ctx kind key op filters e = ground arith
