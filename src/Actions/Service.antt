-- ===== src/Actions/Service.antt =====
-- Submission, rejection and cancellation (apps/datacore/src/actions.ts, `create`, `submit`, `reject`,
-- `cancel` of `ActionService`): each takes the world and returns it with a draft or the error that is
-- thrown. The stores of types and users and the rule engine (apps/datacore/src/rules.ts) are
-- parameters, as are new ids and the clock.
use mathlib.Core.Option
use complete.Base.{
  ℕ, String, Bool, true, false, not, ◌&&◌, List, [], ◌∷◌, Option, none, some, map, if◌then◌else◌,
  str_eq, any, filter,
}
use complete.Store.{get, list}
use complete.Json.{Fields}
use complete.Actions.Drafts.{
  first_open, AuthCtx, User, user_entity, ActionStatus, draft, pending_approval, rejected,
  cancelled, Decision, ActionDraft, draft_entity, base_role, change_first_open, decided, open_steps,
}
use complete.Actions.Params.{validate_params}
use complete.Actions.World.{
  is_pending, ActionType, type_entity, Verdict, ActionError, not_found, wrong_status,
  not_originator, bad_params, rules_blocked, empty_chain, no_eligible_approver, comment_required,
  emit_pending, emit_rejected, emit_cancelled, notify_rejected, Result, ok, error, World,
  notify_first, first_role, ineligible_role, get_type, open_step_for, is_cancellable, commit,
}

abbrev pub chain_of : Option ActionType → List String
chain_of none = "admin" ∷ []
chain_of (some type) = type.approval_chain

-- A draft of no known type has the chain of an admin, and its approvers are not looked for.
unfoldable pub check_chain : List User → String → Option ActionType → Option ActionError
check_chain users origin type = elim (chain_of type) [
  | [] ↦ some empty_chain
  | _ ↦ elim type [
    | none ↦ none
    | some t ↦ Option.map no_eligible_approver (ineligible_role users origin t.approval_chain)
  ]
]

abbrev pub is_draft : ActionStatus → Bool
is_draft draft = true
is_draft _ = false

module _ {N : Type 0} where
  -- What a submission checks of the payload: its shape, then the blocking rules.
  unfoldable pub check_payload :
      (List String → Fields N → List Verdict) → Option ActionType → Fields N → Option ActionError
  check_payload evaluate_rules none payload = none
  check_payload evaluate_rules (some type) payload =
      let verdicts = evaluate_rules type.check_rules payload in
      let blocked = filter (λ v. not v.passed && v.is_block) verdicts in
      elim (validate_params type.params_schema payload) [
        | some e ↦ some (bad_params e)
        | none ↦ elim type.check_rules [
          | [] ↦ none
          | _ ↦ elim blocked [
            | [] ↦ none
            | found ↦ some (rules_blocked (map (λ v. v.explanation) found))
          ]
        ]
      ]

  module _ (evaluate_rules : List String → Fields N → List Verdict) (types : List ActionType)
      (users : List User) where
    unfoldable pub submit : AuthCtx → String → ℕ → World N → Result (ActionDraft N) × World N
    unfolding check_payload check_chain
    submit ctx id now w = elim (get ctx.tenant_id id w.drafts) [
      | none ↦ (error not_found, w)
      | some d ↦
          let type = get_type types ctx.tenant_id d.action_type_key in
          let chain = chain_of type in
          let d' = record d {
            approval_steps = open_steps 0 chain;
            status = pending_approval;
            updated_at = now;
          } in
          let messages =
            emit_pending d.id d.action_type_key 1 (first_role chain)
            ∷ notify_first chain d.origin.user_id d.id in
          if not (is_draft d.status)
          then (error (wrong_status d.status), w)
          else elim (check_payload evaluate_rules type d.payload) [
            | some e ↦ (error e, w)
            | none ↦
                elim (check_chain (list ctx.tenant_id (λ u. true) users) d.origin.user_id type) [
                  | some e ↦ (error e, w)
                  | none ↦ (ok d', commit d' messages w)
                ]
          ]
    ]

    -- The new draft stays stored where its submission fails.
    unfoldable pub create :
        AuthCtx
        → String
        → String
        → Fields N
        → Option String
        → Option String
        → Bool
        → ℕ
        → World N
        → Result (ActionDraft N) × World N
    create ctx id type_key payload task agent submits now w =
        let d : ActionDraft N = record {
          id = id;
          tenant_id = ctx.tenant_id;
          action_type_key = type_key;
          payload = payload;
          origin = record { task_id = task; agent_id = agent; user_id = ctx.user_id };
          status = draft;
          approval_steps = [];
          execution_result = none;
          created_at = now;
          updated_at = now;
        } in
        let w' = commit d [] w in if submits then submit ctx id now w' else (ok d, w')

  unfoldable pub cancel : AuthCtx → String → ℕ → World N → Result (ActionDraft N) × World N
  cancel ctx id now w = elim (get ctx.tenant_id id w.drafts) [
    | none ↦ (error not_found, w)
    | some d ↦
        let d' = record d { status = cancelled; updated_at = now } in
        if not (is_cancellable d.status)
        then (error (wrong_status d.status), w)
        else if not (str_eq d.origin.user_id ctx.user_id)
            && not (any (λ r. str_eq (base_role r) "admin") ctx.roles)
        then (error not_originator, w)
        else (ok d', commit d' (emit_cancelled d.id ∷ []) w)
  ]

  -- `comment.trim()` is a parameter: `is_blank` says that nothing is left of the comment.
  unfoldable pub reject :
      (String → Bool) → AuthCtx → String → String → ℕ → World N → Result (ActionDraft N) × World N
  unfolding open_step_for
  reject is_blank ctx id comment now w =
      if is_blank comment
      then (error comment_required, w)
      else elim (get ctx.tenant_id id w.drafts) [
        | none ↦ (error not_found, w)
        | some d ↦ elim (open_step_for ctx d) [
          | error e ↦ (error e, w)
          | ok step ↦
              let d' = record d {
                approval_steps =
                    change_first_open (decided Decision.reject ctx.user_id (some comment) now)
                      d.approval_steps;
                status = rejected;
                updated_at = now;
              } in
              (
                ok d',
                commit d'
                    (emit_rejected d.id step.seq comment
                      ∷ notify_rejected d.origin.user_id d.id comment
                      ∷ [])
                    w,
              )
        ]
      ]

  -- `get`
  unfoldable pub get_draft : AuthCtx → String → World N → Result (ActionDraft N)
  get_draft ctx id w = elim (get ctx.tenant_id id w.drafts) [
    | none ↦ error not_found
    | some d ↦ ok d
  ]

  -- `currentStep`: the place and the role of the open step.
  unfoldable pub current_step : ActionDraft N → Option (ℕ × String)
  current_step d = Option.map (λ s. (s.seq, s.role)) (first_open d.approval_steps)

  -- Of the drafts of a list that a user may decide: pending, with an open step of a role of the user,
  -- and of another originator.
  unfoldable pub awaits : AuthCtx → ActionDraft N → Bool
  unfolding current_step
  awaits ctx d = elim (current_step d) [
    | none ↦ false
    | some step ↦
        is_pending d.status
        && any (λ r. str_eq (base_role r) step.1) ctx.roles
        && not (str_eq d.origin.user_id ctx.user_id)
  ]

  -- `list`, before it is sorted by the time of creation.
  unfoldable pub list_drafts :
      (ActionStatus → Bool) → (mine : Bool) → AuthCtx → World N → List (ActionDraft N)
  unfolding awaits
  list_drafts wanted mine ctx w =
      let drafts = list ctx.tenant_id (λ d. wanted d.status) w.drafts in
      if mine then filter (awaits ctx) drafts else drafts
