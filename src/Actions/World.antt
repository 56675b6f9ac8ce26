-- ===== src/Actions/World.antt =====
-- What the operations of `ActionService` work on (apps/datacore/src/actions.ts; `ActionType` is in
-- packages/contracts/src/actions.ts): the stored drafts and the messages sent so far, the errors that
-- are thrown, the registry of action types, and the choice of approvers. A message is a call of the
-- outbox or of the notification service, in the order of the calls.
use complete.Base.{
  ℕ, String, Bool, true, false, not, ◌&&◌, List, [], ◌∷◌, ◌++◌, Option, none, some, if◌then◌else◌,
  leb, str_eq, any, find?, length,
}
use complete.Store.{Entity, put, list}
use complete.Actions.Drafts.{
  AuthCtx, User, user_entity, ActionStatus, draft, pending_approval, approved, ApprovalStep,
  ActionDraft, draft_entity, has_role, first_open,
}
use complete.Actions.Params.{ParamsSchema, ParamError}

pub record ActionType : Type 0 where
  pub id : String
  pub tenant_id : String
  pub key : String
  pub params_schema : ParamsSchema
  pub check_rules : List String
  pub approval_chain : List String

instance abbrev pub type_entity : Entity ActionType
type_entity = record { tenant_id = λ t. t.tenant_id; id = λ t. t.id }

pub record Verdict : Type 0 where
  pub passed : Bool
  pub is_block : Bool
  pub explanation : String

-- What the write-back adapter's call comes to.
pub data Executed : Type 0 where
  done : (target_ref : Option String) → Executed
  refused : (error : Option String) → Executed
  crashed : (message : String) → Executed

pub data ActionError : Type 0 where
  not_found : ActionError
  not_approved : ActionError
  wrong_status : ActionStatus → ActionError
  no_pending_step : ActionError
  needs_role : String → ActionError
  self_approval : ActionError
  not_originator : ActionError
  bad_params : ParamError → ActionError
  rules_blocked : List String → ActionError
  empty_chain : ActionError
  chain_length : ActionError
  no_eligible_approver : String → ActionError
  comment_required : ActionError

pub data Message : Type 0 where
  emit_pending : (draft_id type : String) (step : ℕ) (role : String) → Message
  emit_approved : (draft_id type : String) → Message
  emit_rejected : (draft_id : String) (step : ℕ) (comment : String) → Message
  emit_cancelled : (draft_id : String) → Message
  emit_executed : (draft_id : String) (target_ref : Option String) (attempts : ℕ) → Message
  emit_execution_failed : (draft_id : String) (error : Option String) (attempts : ℕ) → Message
  notify_role : (role except draft_id : String) → Message
  notify_approved : (user draft_id : String) → Message
  notify_rejected : (user draft_id comment : String) → Message

pub data Result (A : Type 0) : Type 0 where
  ok : A → Result A
  error : ActionError → Result A

abbrev pub is_error : {A : Type 0} → Result A → Bool
is_error (ok a) = false
is_error (error e) = true

pub record World (N : Type 0) : Type 0 where
  pub drafts : List (ActionDraft N)
  pub sent : List Message

-- `if (chain[0]?.role) await notifyRole(…)`
abbrev pub notify_first : List String → String → String → List Message
notify_first [] user id = []
notify_first (role ∷ chain) user id = if str_eq role "" then [] else notify_role role user id ∷ []

abbrev pub first_role : List String → String
first_role [] = ""
first_role (role ∷ chain) = role

-- A user who may approve a step: not the originator, by id or by name, and of the role.
unfoldable pub is_eligible : String → String → User → Bool
is_eligible origin role u =
    not (str_eq u.id origin) && not (str_eq u.username origin) && has_role u.roles role

-- The first step of a chain that nobody may approve.
unfoldable pub ineligible_role : List User → String → List String → Option String
ineligible_role users origin [] = none
ineligible_role users origin (role ∷ chain) =
    if any (is_eligible origin role) users then ineligible_role users origin chain else some role

unfoldable pub get_type : List ActionType → String → String → Option ActionType
get_type types tenant key = find? (λ t. str_eq t.key key) (list tenant (λ t. true) types)

abbrev existing_id : Option ActionType → String → String
existing_id none fresh = fresh
existing_id (some t) fresh = t.id

-- `registerType`; `fresh` is `atype_${tenantId}_${key}`.
unfoldable pub register_type :
    AuthCtx → String → ActionType → List ActionType → Result ActionType × List ActionType
register_type ctx fresh type types =
    let rec = record type {
      id = existing_id (get_type types ctx.tenant_id type.key) fresh;
      tenant_id = ctx.tenant_id;
    } in
    let n = length type.approval_chain in
    if leb 1 n && leb n 3 then (ok rec, put rec types) else (error chain_length, types)

abbrev pub is_cancellable : ActionStatus → Bool
is_cancellable draft = true
is_cancellable pending_approval = true
is_cancellable approved = true
is_cancellable _ = false

abbrev pub is_pending : ActionStatus → Bool
is_pending pending_approval = true
is_pending _ = false

-- A draft is written and messages are sent.
abbrev pub commit : {N : Type 0} → ActionDraft N → List Message → World N → World N
commit d messages w = record w { drafts = put d w.drafts; sent = w.sent ++ messages }

module _ {N : Type 0} where
  -- What a decision asks for: the step that is open, and the role that it needs. `approve` and
  -- `reject` begin so.
  unfoldable pub open_step_for : AuthCtx → ActionDraft N → Result ApprovalStep
  open_step_for ctx d =
      if not (is_pending d.status)
      then error (wrong_status d.status)
      else elim (first_open d.approval_steps) [
        | none ↦ error no_pending_step
        | some step ↦ if has_role ctx.roles step.role then ok step else error (needs_role step.role)
      ]
