-- ===== src/Authz.antt =====
-- Access decisions (apps/datacore/src/authz.ts, `roleMatches`, `decide` and `require` of
-- `AuthzService`; the policies' type is in packages/contracts/src). The text of a reason is left out.
pub mod Grants
pub mod Laws
pub mod Rows
pub mod Visibility
mod Tests
use complete.Base.{
  String, Bool, true, false, not, ◌&&◌, ◌||◌, List, [], ◌∷◌, Option, none, some, if◌then◌else◌,
  str_eq, any, find?,
}
use complete.Store.{Entity, list}
use complete.Actions.Drafts.{AuthCtx, base_role}

pub data ResourceKind : Type 0 where
  object_type connection rule_set action_type : ResourceKind

pub data Op : Type 0 where
  read write execute : Op

pub record Grant : Type 0 where
  pub role : String
  pub ops : List Op

pub record PermissionPolicy : Type 0 where
  pub id : String
  pub tenant_id : String
  pub kind : ResourceKind
  pub key : String
  pub grants : List Grant
  pub row_filter : Option String

instance abbrev pub policy_entity : Entity PermissionPolicy
policy_entity = record { tenant_id = λ p. p.tenant_id; id = λ p. p.id }

pub record AccessDecision : Type 0 where
  pub allowed : Bool
  pub matched_policies : List PermissionPolicy
  pub row_filters : List String

abbrev pub same_kind : ResourceKind → ResourceKind → Bool
same_kind object_type object_type = true
same_kind connection connection = true
same_kind rule_set rule_set = true
same_kind action_type action_type = true
same_kind _ _ = false

abbrev pub same_op : Op → Op → Bool
same_op read read = true
same_op write write = true
same_op execute execute = true
same_op _ _ = false

-- `roleMatches`
unfoldable pub role_matches : String → List String → Bool
role_matches grant roles =
    any (λ r. str_eq r grant || str_eq (base_role r) grant || str_eq grant "*") roles

unfoldable pub is_platform_admin : List String → Bool
is_platform_admin roles = any (λ r. str_eq (base_role r) "platform_admin") roles

abbrev pub applies : ResourceKind → String → PermissionPolicy → Bool
applies kind key p = same_kind p.kind kind && (str_eq p.key key || str_eq p.key "*")

abbrev pub gives : List String → Op → Grant → Bool
gives roles op g = role_matches g.role roles && any (same_op op) g.ops

-- The policies that have a grant for the user, in the order of the store.
unfoldable pub matching : List String → Op → List PermissionPolicy → List PermissionPolicy
matching roles op [] = []
matching roles op (p ∷ ps) =
    let rest = matching roles op ps in
    elim (find? (gives roles op) p.grants) [ none ↦ rest | some g ↦ p ∷ rest ]

-- The filters of policies, an empty one left out as an absent one.
unfoldable pub filters_of : List PermissionPolicy → List String
filters_of [] = []
filters_of (p ∷ ps) =
    let rest = filters_of ps in
    elim p.row_filter [ none ↦ rest | some f ↦ if str_eq f "" then rest else f ∷ rest ]

abbrev denied : AccessDecision
denied = record { allowed = false; matched_policies = []; row_filters = [] }

unfoldable pub decide :
    List PermissionPolicy → AuthCtx → ResourceKind → String → Op → AccessDecision
unfolding matching filters_of is_platform_admin role_matches
decide policies ctx kind key op =
    let attached = list ctx.tenant_id (applies kind key) policies in
    let matched = matching ctx.roles op attached in
    if is_platform_admin ctx.roles then denied else elim attached [
      | [] ↦ record { allowed = true; matched_policies = []; row_filters = [] }
      | _ ↦ elim matched [
        | [] ↦ denied
        | p ∷ ps ↦ record {
          allowed = true;
          matched_policies = p ∷ ps;
          row_filters = filters_of (p ∷ ps);
        }
      ]
    ]

-- `require`: none where it throws.
unfoldable pub require :
    List PermissionPolicy → AuthCtx → ResourceKind → String → Op → Option (List String)
unfolding decide
require policies ctx kind key op =
    let d = decide policies ctx kind key op in if d.allowed then some d.row_filters else none
