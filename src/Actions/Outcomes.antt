-- ===== src/Actions/Outcomes.antt =====
-- What each operation of `ActionService` comes to (apps/datacore/src/actions.ts): an error that leaves
-- the world as it was, or one exact change of it under the conditions that the code checks.
use complete.Base.{
  ℕ, String, Bool, true, false, List, [], ◌∷◌, Option, none, some, ◌≡◌, ◌⊎◌, arith, str_eq,
}
use complete.Store.{get, list}
use complete.Actions.Drafts.{
  AuthCtx, User, user_entity, draft, pending_approval, approved, executing, rejected, cancelled,
  Decision, ApprovalStep, ActionDraft, draft_entity, has_role, first_open, change_first_open,
  decided, open_steps,
}
use complete.Actions.World.{
  ActionType, Verdict, Executed, Message, emit_cancelled, emit_rejected, notify_rejected,
  emit_pending, notify_role, emit_approved, notify_approved, notify_first, first_role, Result,
  is_error, ok, World, commit, open_step_for, get_type, is_cancellable,
}
use complete.Json.{Fields}
use complete.Actions.Service.{submit, reject, cancel, chain_of, check_payload, check_chain}
use complete.Actions.Execution.{attempt_from, settle, execute, approve}

module _ {N : Type 0} where
  -- The operation threw, and the world is as it was.
  abbrev pub Threw : World N → Result (ActionDraft N) × World N → Type 0
  Threw w r = (is_error r.0 ≡ true) × (r.1 ≡ w)

  abbrev pub cancelled_draft : ActionDraft N → ℕ → ActionDraft N
  cancelled_draft d now = record d { status = cancelled; updated_at = now }

  -- A draft that is found and not yet executing is cancelled; any other call throws.
  pub cancel_outcome :
      (ctx : AuthCtx) (id : String) (now : ℕ) (w : World N)
      → Threw w (cancel ctx id now w)
        ⊎ ((d : ActionDraft N) × (get ctx.tenant_id id w.drafts ≡ some d)
            × (is_cancellable d.status ≡ true)
            × (cancel ctx id now w ≡ (
              ok (cancelled_draft d now),
              commit (cancelled_draft d now) (emit_cancelled d.id ∷ []) w,
            )))
  unfolding cancel
  cancel_outcome ctx id now w = ground arith

  -- The open step, for a user with its role.
  pub open_step_for_lem :
      (ctx : AuthCtx) (d : ActionDraft N)
      → (is_error (open_step_for ctx d) ≡ true)
        ⊎ ((s : ApprovalStep) × (open_step_for ctx d ≡ ok s)
            × (d.status ≡ pending_approval)
            × (first_open d.approval_steps ≡ some s)
            × (has_role ctx.roles s.role ≡ true))
  unfolding open_step_for
  open_step_for_lem ctx d = ground arith

  abbrev pub rejected_draft : AuthCtx → String → ℕ → ActionDraft N → ActionDraft N
  rejected_draft ctx comment now d = record d {
    approval_steps =
        change_first_open (decided Decision.reject ctx.user_id (some comment) now) d.approval_steps;
    status = rejected;
    updated_at = now;
  }

  -- A pending draft is rejected by a user with the role of its open step; any other call throws.
  pub reject_outcome :
      (is_blank : String → Bool) (ctx : AuthCtx) (id comment : String) (now : ℕ) (w : World N)
      → Threw w (reject is_blank ctx id comment now w)
        ⊎ ((d : ActionDraft N) × (s : ApprovalStep) × (get ctx.tenant_id id w.drafts ≡ some d)
            × (d.status ≡ pending_approval)
            × (first_open d.approval_steps ≡ some s)
            × (has_role ctx.roles s.role ≡ true)
            × (reject is_blank ctx id comment now w ≡ (
              ok (rejected_draft ctx comment now d),
              commit
                  (rejected_draft ctx comment now d)
                  (emit_rejected d.id s.seq comment
                    ∷ notify_rejected d.origin.user_id d.id comment
                    ∷ [])
                  w,
            )))
  unfolding reject open_step_for
  reject_outcome is_blank ctx id comment now w = ground arith

  module _ (evaluate_rules : List String → Fields N → List Verdict) (types : List ActionType)
      (users : List User) (ctx : AuthCtx) (id : String) (now : ℕ) (w : World N) where
    abbrev pub submitted_draft : ActionDraft N → ActionDraft N
    submitted_draft d = record d {
      approval_steps = open_steps 0 (chain_of (get_type types ctx.tenant_id d.action_type_key));
      status = pending_approval;
      updated_at = now;
    }

    abbrev pub submit_messages : ActionDraft N → List Message
    submit_messages d =
        let chain = chain_of (get_type types ctx.tenant_id d.action_type_key) in
        emit_pending d.id d.action_type_key 1 (first_role chain)
        ∷ notify_first chain d.origin.user_id d.id

    -- A draft that passes the checks is pending with its whole chain open; any other call throws.
    pub submit_outcome :
        Threw w (submit evaluate_rules types users ctx id now w)
        ⊎ ((d : ActionDraft N) × (get ctx.tenant_id id w.drafts ≡ some d)
            × (d.status ≡ draft)
            × (check_payload evaluate_rules
                  (get_type types ctx.tenant_id d.action_type_key)
                  d.payload
                ≡ none)
            × (check_chain
                  (list ctx.tenant_id (λ u. true) users)
                  d.origin.user_id
                  (get_type types ctx.tenant_id d.action_type_key)
                ≡ none)
            × (submit evaluate_rules types users ctx id now w
                ≡ (ok (submitted_draft d), commit (submitted_draft d) (submit_messages d) w)))
    unfolding submit
    submit_outcome = ground arith

  abbrev pub running_draft : ActionDraft N → ℕ → ActionDraft N
  running_draft d started = record d { status = executing; updated_at = started }

  module _ (executor : ℕ → ActionDraft N → Executed) (delays : List ℕ) (ended : ℕ) where
    abbrev pub settled : ActionDraft N → ActionDraft N × List Message
    settled d = settle d (attempt_from executor delays 0 none d) ended

    -- An approved draft is executed, by way of the status `executing`; any other call throws.
    pub execute_outcome :
        (tenant id : String) (started : ℕ) (w : World N)
        → Threw w (execute executor delays tenant id started ended w)
          ⊎ ((d : ActionDraft N) × (get tenant id w.drafts ≡ some d)
              × (d.status ≡ approved)
              × (execute executor delays tenant id started ended w ≡ (
                ok (settled (running_draft d started)).0,
                commit
                    (settled (running_draft d started)).0
                    (settled (running_draft d started)).1
                    (commit (running_draft d started) [] w),
              )))
    unfolding execute
    execute_outcome tenant id started w = ground arith

    abbrev pub approved_steps : AuthCtx → Option String → ℕ → ActionDraft N → List ApprovalStep
    approved_steps ctx comment now d =
        change_first_open (decided Decision.approve ctx.user_id comment now) d.approval_steps

    abbrev pub waiting_draft : AuthCtx → Option String → ℕ → ActionDraft N → ActionDraft N
    waiting_draft ctx comment now d = record d {
      approval_steps = approved_steps ctx comment now d;
      updated_at = now;
    }

    abbrev pub approved_draft : AuthCtx → Option String → ℕ → ActionDraft N → ActionDraft N
    approved_draft ctx comment now d = record d {
      approval_steps = approved_steps ctx comment now d;
      status = approved;
      updated_at = now;
    }

    abbrev pub approved_messages : ActionDraft N → List Message
    approved_messages d =
        emit_approved d.id d.action_type_key ∷ notify_approved d.origin.user_id d.id ∷ []

    abbrev pub waiting_messages : ActionDraft N → ApprovalStep → List Message
    waiting_messages d next =
        emit_pending d.id d.action_type_key next.seq next.role
        ∷ notify_role next.role d.origin.user_id d.id
        ∷ []

    -- A user with the role of the open step, who is not the originator, approves that step; then the
    -- next step is open, or the draft is approved and executed at once. Any other call throws.
    pub approve_outcome :
        (ctx : AuthCtx) (id : String) (comment : Option String) (now started : ℕ) (w : World N)
        → Threw w (approve executor delays ctx id comment now started ended w)
          ⊎ ((d : ActionDraft N) × (s : ApprovalStep) × (get ctx.tenant_id id w.drafts ≡ some d)
              × (d.status ≡ pending_approval)
              × (first_open d.approval_steps ≡ some s)
              × (has_role ctx.roles s.role ≡ true)
              × (str_eq ctx.user_id d.origin.user_id ≡ false)
              × (((next : ApprovalStep) × (first_open (approved_steps ctx comment now d)
                      ≡ some next)
                    × (approve executor delays ctx id comment now started ended w ≡ (
                      ok (waiting_draft ctx comment now d),
                      commit (waiting_draft ctx comment now d) (waiting_messages d next) w,
                    )))
                  ⊎ ((first_open (approved_steps ctx comment now d) ≡ none)
                      × (approve executor delays ctx id comment now started ended w
                          ≡ execute executor delays ctx.tenant_id d.id started ended (
                              commit (approved_draft ctx comment now d) (approved_messages d) w)))))
    unfolding approve open_step_for
    approve_outcome ctx id comment now started w = ground arith
