-- ===== src/Authz/Visibility.antt =====
-- Which rows a user sees (apps/datacore/src/authz.ts, `rowAllowed` with `require` and `explain`).
use complete.Base.{
  ◌≢◌, ◌↔◌, inl, inr, String, true, false, List, [], ◌∷◌, some, ◌≡◌, refl, arith, All, all,
  Bool-cases, is_some,
}
use complete.Json.{Fields}
use complete.Actions.Drafts.{AuthCtx}
use complete.Rules.{Numbers}
use complete.Rules.Values.{Platform, tree, evaluate_expression}
use complete.Authz.{ResourceKind, Op, PermissionPolicy, decide, require}
use complete.Authz.Laws.{require_lem}
use complete.Authz.Grants.{IsAttached, Grants, filters-All}
use complete.Authz.Rows.{row_context, row_allowed, explain}

module _ {N : Type 0} ⦃numbers : Numbers N⦄ (platform : Platform N) (ctx : AuthCtx)
    (attributes props : Fields N) where
  -- A row passes where each filter has a value for it and the value is true.
  abbrev pub Passes : String → Type 0
  Passes f = evaluate_expression platform f (row_context platform ctx attributes props) ≡ some true

  pub row_allowed_iff :
      (filters : List String)
      → (row_allowed platform ctx attributes filters props ≡ true) ↔ All Passes filters
  unfolding row_allowed
  row_allowed_iff [] = (λ e. tt, λ h. refl)
  row_allowed_iff (f ∷ fs) =
      let rest = row_allowed_iff fs in
      (
        λ e. (ground arith, rest.0 (ground arith)),
        λ h. let tail = rest.1 h.1 in let head = h.0 in ground arith,
      )

  unreadable : (f : String) → is_some (tree platform f) ≡ false → Passes f → ⊥
  unfolding evaluate_expression
  unreadable f e h = ground arith

  invalid :
      (filters : List String)
      → all (λ f. is_some (tree platform f)) filters ≡ false
      → All Passes filters
      → ⊥
  invalid [] e h = absurd (cc)
  invalid (f ∷ fs) e h = elim (Bool-cases (is_some (tree platform f))) [
    | inl e' ↦ invalid fs (rw e' at e) h.1
    | inr e' ↦ unreadable f e' h.0
  ]

  -- Where `explain` calls the filters of a decision invalid, no row passes them.
  pub explain-fails_closed :
      (policies : List PermissionPolicy) (kind : ResourceKind) (key : String) (op : Op)
      → (explain platform policies ctx kind key op).row_filter_valid ≡ false
      → row_allowed platform ctx attributes (decide policies ctx kind key op).row_filters props
        ≡ false
  unfolding explain
  explain-fails_closed policies kind key op e =
      let filters = (decide policies ctx kind key op).row_filters in
      elim (Bool-cases (row_allowed platform ctx attributes filters props)) [
        | inl h ↦ absurd (invalid filters e ((row_allowed_iff filters).0 h))
        | inr h ↦ h
      ]

  -- A user whom `require` lets through gets a row with `rowAllowed` just in case, of each policy of the
  -- tenant on the resource that grants the user the operation, the filter is absent, empty, or
  -- evaluated to true on the row.
  pub visible_iff :
      (policies : List PermissionPolicy) (kind : ResourceKind) (key : String) (op : Op)
      (filters : List String)
      → require policies ctx kind key op ≡ some filters
      → (row_allowed platform ctx attributes filters props ≡ true)
        ↔ All
            (λ p.
              IsAttached ctx kind key p
              → Grants ctx.roles op p
              → (f : String) → p.row_filter ≡ some f
              → f ≢ ""
              → Passes f)
            policies
  visible_iff policies kind key op filters e =
      let given = row_allowed_iff filters in
      let same = require_lem policies ctx kind key op filters e in
      let each = filters-All ctx kind key ctx.roles op Passes policies in
      (λ h. each.0 (rw same at (given.0 h)), λ h. given.1 (rw same (each.1 h)))
