-- ===== src/Actions/Drafts.antt =====
-- Action drafts and their approval chain (apps/datacore/src/actions.ts, `baseRole` and the searches in
-- `approvalSteps`; record types of apps/datacore/src/domain.ts and packages/contracts/src/actions.ts).
-- Times are milliseconds since the epoch.
use complete.Base.{
  ℕ, ◌+◌, String, code, Bool, true, false, ◌||◌, List, [], ◌∷◌, Option, none, some, if◌then◌else◌,
  ◌==◌, str_eq, any,
}
use complete.Store.{Entity}
use complete.Json.{Fields}

-- `AuthCtx`, but for the attributes, which nothing here reads.
pub record AuthCtx : Type 0 where
  pub tenant_id : String
  pub user_id : String
  pub roles : List String

pub record User : Type 0 where
  pub id : String
  pub tenant_id : String
  pub username : String
  pub roles : List String

instance abbrev pub user_entity : Entity User
user_entity = record { tenant_id = λ u. u.tenant_id; id = λ u. u.id }

pub data ActionStatus : Type 0 where
  draft pending_approval approved executing executed execution_failed rejected cancelled :
      ActionStatus

pub data Decision : Type 0 where
  approve reject : Decision

pub record ApprovalStep : Type 0 where
  pub seq : ℕ
  pub role : String
  pub approver_id : Option String
  pub decision : Option Decision
  pub comment : Option String
  pub decided_at : Option ℕ

pub record ExecutionResult : Type 0 where
  pub is_ok : Bool
  pub target_ref : Option String
  pub error : Option String
  pub attempts : ℕ

pub record Origin : Type 0 where
  pub task_id : Option String
  pub agent_id : Option String
  pub user_id : String

pub record ActionDraft (N : Type 0) : Type 0 where
  pub id : String
  pub tenant_id : String
  pub action_type_key : String
  pub payload : Fields N
  pub origin : Origin
  pub status : ActionStatus
  pub approval_steps : List ApprovalStep
  pub execution_result : Option ExecutionResult
  pub created_at : ℕ
  pub updated_at : ℕ

instance abbrev pub draft_entity : {N : Type 0} → Entity (ActionDraft N)
draft_entity = record { tenant_id = λ d. d.tenant_id; id = λ d. d.id }

-- `r.split(":")[0]`
unfoldable pub base_role : String → String
base_role String.[] = ""
base_role (String.◌∷◌ c r) = if code c == b':' then "" else String.◌∷◌ c (base_role r)

-- `roles.some((r) => baseRole(r) === role || r === role)`
unfoldable pub has_role : List String → String → Bool
has_role roles role = any (λ r. str_eq (base_role r) role || str_eq r role) roles

abbrev pub is_open : ApprovalStep → Bool
is_open s = elim s.decision [ none ↦ true | some d ↦ false ]

-- `approvalSteps.find((s) => !s.decision)`
unfoldable pub first_open : List ApprovalStep → Option ApprovalStep
first_open [] = none
first_open (s ∷ steps) = if is_open s then some s else first_open steps

-- The steps after that step has been changed.
unfoldable pub change_first_open :
    (ApprovalStep → ApprovalStep) → List ApprovalStep → List ApprovalStep
change_first_open f [] = []
change_first_open f (s ∷ steps) = if is_open s then f s ∷ steps else s ∷ change_first_open f steps

abbrev pub decided : Decision → String → Option String → ℕ → ApprovalStep → ApprovalStep
decided d user comment now s = record s {
  decision = some d;
  approver_id = some user;
  comment = comment;
  decided_at = some now;
}

-- `chain.map((s, i) => ({ seq: i + 1, role: s.role }))`
unfoldable pub open_steps : ℕ → List String → List ApprovalStep
open_steps i [] = []
open_steps i (role ∷ chain) =
    record {
      seq = i + 1;
      role = role;
      approver_id = none;
      decision = none;
      comment = none;
      decided_at = none;
    }
    ∷ open_steps (i + 1) chain
