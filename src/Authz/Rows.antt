-- ===== src/Authz/Rows.antt =====
-- Row filters (apps/datacore/src/authz.ts, `rowAllowed` and `explain` of `AuthzService`).
use Prim.Native.String
use complete.Base.{String, Bool, true, false, List, [], ◌∷◌, Option, none, some, is_some, map, all}
use complete.Json.{Fields, field, obj}
use complete.Actions.Drafts.{AuthCtx}
use complete.Rules.{Numbers}
use complete.Rules.Evaluation.{EvalContext}
use complete.Rules.Values.{Platform, tree, evaluate_expression}
use complete.Authz.{ResourceKind, Op, PermissionPolicy, decide}

pub record Explanation : Type 0 where
  pub allowed : Bool
  pub matched_policies : List PermissionPolicy
  pub effective_row_filter : Option String
  pub row_filter_valid : Bool

abbrev joined : String → List String → String
joined f [] = f
joined f (g ∷ gs) = String.◌++◌ f (String.◌++◌ " AND " (joined g gs))

abbrev in_parentheses : String → String
in_parentheses f = String.◌++◌ "(" (String.◌++◌ f ")")

-- The filters joined, for the reader.
abbrev pub effective : List String → Option String
effective [] = none
effective (f ∷ fs) = some (joined (in_parentheses f) (map in_parentheses fs))

module _ {N : Type 0} ⦃numbers : Numbers N⦄ (platform : Platform N) where
  -- What a filter reads: the row, also under `Object`, and the user.
  abbrev pub row_context : AuthCtx → Fields N → Fields N → EvalContext N
  row_context ctx attributes props = record {
    payload = field "Object" (obj props) props;
    user =
        some
          (record { user_id = some ctx.user_id; roles = some ctx.roles; attributes = attributes });
    sustain = none;
  }

  -- A filter that is false, and one that throws, keep the row back.
  abbrev pub passes : Option Bool → Bool
  passes none = false
  passes (some b) = b

  -- `rowAllowed`; `attributes` are those of the user.
  unfoldable pub row_allowed : AuthCtx → Fields N → List String → Fields N → Bool
  row_allowed ctx attributes [] props = true
  row_allowed ctx attributes (filter ∷ filters) props =
      let others = row_allowed ctx attributes filters props in
      elim (passes (evaluate_expression platform filter (row_context ctx attributes props))) [
        | false ↦ false
        | true ↦ others
      ]

  unfoldable pub explain :
      List PermissionPolicy → AuthCtx → ResourceKind → String → Op → Explanation
  explain policies ctx kind key op =
      let d = decide policies ctx kind key op in
      record {
        allowed = d.allowed;
        matched_policies = d.matched_policies;
        effective_row_filter = effective d.row_filters;
        row_filter_valid = all (λ f. is_some (tree platform f)) d.row_filters;
      }
