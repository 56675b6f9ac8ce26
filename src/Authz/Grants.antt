-- ===== src/Authz/Grants.antt =====
-- When a policy is on a resource and grants an operation (apps/datacore/src/authz.ts, the filter of
-- `decide` and `roleMatches`), said without the code's loops, and what the loops find.
use complete.Base.{
  subst, ◌⊎◌, ◌↔◌, inl, inr, String, Bool, true, List, [], ◌∷◌, none, some, ◌≡◌, ◌≢◌, refl, sym,
  ◌∙◌, arith, All, Any, any, any_iff, find?, find?-cases, Bool-cases, str_eq, eq_iff, ◌&&◌,
  Option-cases,
}
use mathlib.Core.Bool.{false≢true}
use complete.Store.{list}
use complete.Actions.Drafts.{AuthCtx, base_role}
use complete.Authz.{
  ResourceKind, Op, Grant, PermissionPolicy, policy_entity, same_kind, same_op, role_matches,
  is_platform_admin, applies, gives, matching, filters_of,
}

-- The policy is of the caller's tenant and on the resource, or on all resources of the kind.
abbrev pub IsAttached : AuthCtx → ResourceKind → String → PermissionPolicy → Type 0
IsAttached ctx kind key p =
    (p.tenant_id ≡ ctx.tenant_id) × (p.kind ≡ kind) × ((p.key ≡ key) ⊎ (p.key ≡ "*"))

-- The role is the one that the grant names, in full or without its qualifier, or it names all.
abbrev pub Names : String → String → Type 0
Names named r = (r ≡ named) ⊎ (base_role r ≡ named) ⊎ (named ≡ "*")

-- One grant of the policy names a role of the caller and has the operation.
abbrev pub Grants : List String → Op → PermissionPolicy → Type 0
Grants roles op p = Any (λ g. Any (Names g.role) roles × Any (λ o. op ≡ o) g.ops) p.grants

abbrev pub IsOperator : List String → Type 0
IsOperator roles = Any (λ r. base_role r ≡ "platform_admin") roles

and_iff : (b c : Bool) → (b && c ≡ true) ↔ ((b ≡ true) × (c ≡ true))
and_iff b c = (λ e. ground arith, λ h. ground arith)

same_kind_iff : (k l : ResourceKind) → (same_kind k l ≡ true) ↔ (k ≡ l)
same_kind_iff k l = (λ e. ground arith, λ e. ground arith)

same_op_iff : (o q : Op) → (same_op o q ≡ true) ↔ (o ≡ q)
same_op_iff o q = (λ e. ground arith, λ e. ground arith)

pub is_platform_admin_iff :
    (roles : List String) → (is_platform_admin roles ≡ true) ↔ IsOperator roles
unfolding is_platform_admin
is_platform_admin_iff roles =
    any_iff (λ r. str_eq (base_role r) "platform_admin") (λ r. base_role r ≡ "platform_admin")
      (λ r. eq_iff (base_role r) "platform_admin") roles

role_matches_iff :
    (named : String) (roles : List String)
    → (role_matches named roles ≡ true) ↔ Any (Names named) roles
unfolding role_matches
role_matches_iff named roles =
    any_iff _ (Names named)
      (λ r.
        let full = eq_iff r named in
        let base = eq_iff (base_role r) named in
        let all = eq_iff named "*" in (λ e. ground arith, λ h. ground arith))
      roles

gives_iff :
    (roles : List String) (op : Op) (g : Grant)
    → (gives roles op g ≡ true) ↔ (Any (Names g.role) roles × Any (λ o. op ≡ o) g.ops)
gives_iff roles op g =
    let role = role_matches_iff g.role roles in
    let ops = any_iff (same_op op) (λ o. op ≡ o) (same_op_iff op) g.ops in
    let both = and_iff (role_matches g.role roles) (any (same_op op) g.ops) in
    (λ e. let (r, o) = both.0 e in (role.0 r, ops.0 o), λ h. both.1 (role.1 h.0, ops.1 h.1))

grants_cases :
    (roles : List String) (op : Op) (p : PermissionPolicy)
    → ((find? (gives roles op) p.grants ≡ none) × (Grants roles op p → ⊥))
      ⊎ ((g : Grant) × (find? (gives roles op) p.grants ≡ some g) × Grants roles op p)
grants_cases roles op p =
    find?-cases (gives roles op) (λ g. Any (Names g.role) roles × Any (λ o. op ≡ o) g.ops)
      (gives_iff roles op) p.grants

module _ (ctx : AuthCtx) (kind : ResourceKind) (key : String) where
  IsAttached-iff :
      (p : PermissionPolicy)
      → (str_eq p.tenant_id ctx.tenant_id && applies kind key p ≡ true) ↔ IsAttached ctx kind key p
  IsAttached-iff p =
      let tenant = eq_iff p.tenant_id ctx.tenant_id in
      let kinds = same_kind_iff p.kind kind in
      let one = eq_iff p.key key in
      let every = eq_iff p.key "*" in (λ e. ground arith, λ h. ground arith)

  -- No policy is found just in case none is on the resource.
  pub IsAttached-none :
      (ps : List PermissionPolicy)
      → (list ctx.tenant_id (applies kind key) ps ≡ []) ↔ All (λ p. ¬ IsAttached ctx kind key p) ps
  unfolding list
  IsAttached-none [] = (λ e. tt, λ h. refl)
  IsAttached-none (p ∷ ps) =
      let here = IsAttached-iff p in
      let rest = IsAttached-none ps in
      elim (Bool-cases (str_eq p.tenant_id ctx.tenant_id && applies kind key p)) [
        | inl e ↦ rw e (λ h. absurd (cc), λ h. absurd (h.0 (here.0 e)))
        | inr e ↦
            let other : ¬ IsAttached ctx kind key p = λ h. false≢true (sym e ∙ here.1 h) in
            rw e (λ h. (other, rest.0 h), λ h. rest.1 h.1)
      ]

  module _ (roles : List String) (op : Op) where
    -- A policy that grants is found just in case there is one on the resource.
    pub matching-some :
        (ps : List PermissionPolicy)
        → (matching roles op (list ctx.tenant_id (applies kind key) ps) ≢ [])
          ↔ Any (λ p. IsAttached ctx kind key p × Grants roles op p) ps
    unfolding list matching
    matching-some [] = (λ h. absurd (h refl), λ h. absurd h)
    matching-some (p ∷ ps) =
        let here = IsAttached-iff p in
        let rest = matching-some ps in
        elim (Bool-cases (str_eq p.tenant_id ctx.tenant_id && applies kind key p)) [
          | inl e ↦ elim (grants_cases roles op p) [
            | inl (e', no_grant) ↦
                rw (e, matching, e')
                  (
                    λ h. inr (rest.0 h),
                    λ h. elim h [ inl k ↦ absurd (no_grant k.1) | inr k ↦ rest.1 k ],
                  )
            | inr (g, e', grant) ↦
                rw (e, matching, e') (λ h. inl (here.0 e, grant), λ h e''. absurd (cc))
          ]
          | inr e ↦
              let other : ¬ IsAttached ctx kind key p = λ h. false≢true (sym e ∙ here.1 h) in
              rw e
                (λ h. inr (rest.0 h), λ h. elim h [ inl k ↦ absurd (other k.0) | inr k ↦ rest.1 k ])
        ]

    -- What holds of each filter found, and of the filter of each policy on the resource that grants.
    module _ (P : String → Type 0) where
      abbrev pub OfPolicy : PermissionPolicy → Type 0
      OfPolicy p =
          IsAttached ctx kind key p
          → Grants roles op p
          → (f : String) → p.row_filter ≡ some f
          → f ≢ ""
          → P f

      filters-All-cons :
          (p : PermissionPolicy) (ps : List PermissionPolicy)
          → All P (filters_of (p ∷ ps))
            ↔ (((f : String) → p.row_filter ≡ some f → f ≢ "" → P f) × All P (filters_of ps))
      unfolding filters_of
      filters-All-cons p ps = elim (Option-cases p.row_filter) [
        | inl e ↦ rw e (λ h. (λ f e'. absurd (cc), h), λ h. h.1)
        | inr (f, e) ↦ elim (Bool-cases (str_eq f "")) [
          | inl e' ↦
              let empty : f ≡ "" = (eq_iff f "").0 e' in
              rw (e, e') (λ h. (λ g same ne. absurd (ne (ground arith)), h), λ h. h.1)
          | inr e' ↦
              let full : f ≢ "" = λ same. false≢true (sym e' ∙ (eq_iff f "").1 same) in
              rw (e, e')
                (
                  λ h. (λ g same ne. let to : f ≡ g = cc in subst P to h.0, h.1),
                  λ h. (h.0 f refl full, h.1),
                )
        ]
      ]

      pub filters-All :
          (ps : List PermissionPolicy)
          → All P (filters_of (matching roles op (list ctx.tenant_id (applies kind key) ps)))
            ↔ All OfPolicy ps
      unfolding list matching filters_of
      filters-All [] = (λ h. tt, λ h. tt)
      filters-All (p ∷ ps) =
          let here = IsAttached-iff p in
          let rest = filters-All ps in
          elim (Bool-cases (str_eq p.tenant_id ctx.tenant_id && applies kind key p)) [
            | inl e ↦ elim (grants_cases roles op p) [
              | inl (e', no_grant) ↦
                  rw (e, matching, e')
                    (λ h. (λ a g. absurd (no_grant g), rest.0 h), λ h. rest.1 h.1)
              | inr (g, e', grant) ↦
                  let found =
                    filters-All-cons p
                      (matching roles op (list ctx.tenant_id (applies kind key) ps)) in
                  rw (e, matching, e')
                    (
                      λ h. let k = found.0 h in (λ _ _. k.0, rest.0 k.1),
                      λ h. found.1 (h.0 (here.0 e) grant, rest.1 h.1),
                    )
            ]
            | inr e ↦
                let other : ¬ IsAttached ctx kind key p = λ h. false≢true (sym e ∙ here.1 h) in
                rw e (λ h. (λ a. absurd (other a), rest.0 h), λ h. rest.1 h.1)
          ]
