-- ===== src/Actions/Execution.antt =====
-- Approval and execution (apps/datacore/src/actions.ts, `approve` and `execute` of `ActionService`).
use complete.Base.{
  ℕ, ◌+◌, String, Bool, true, false, not, List, [], ◌∷◌, Option, none, some, if◌then◌else◌, str_eq,
}
use complete.Store.{get}
use complete.Actions.Drafts.{
  AuthCtx, user_entity, ActionStatus, approved, executing, executed, execution_failed, Decision,
  ActionDraft, draft_entity, first_open, change_first_open, decided,
}
use complete.Actions.World.{
  type_entity, Executed, done, refused, crashed, not_found, not_approved, self_approval, Message,
  emit_pending, emit_approved, emit_executed, emit_execution_failed, notify_role, notify_approved,
  Result, ok, error, World, open_step_for, commit,
}

abbrev pub is_approved : ActionStatus → Bool
is_approved approved = true
is_approved _ = false

module _ {N : Type 0} where
  -- The draft when the loop is through.
  abbrev pub settle :
      ActionDraft N → Bool × Option String × Option String × ℕ → ℕ → ActionDraft N × List Message
  settle d (true, target, last, attempts) now = (
    record d {
      status = executed;
      execution_result =
          some (record { is_ok = true; target_ref = target; error = none; attempts = attempts });
      updated_at = now;
    },
    emit_executed d.id target attempts ∷ [],
  )
  settle d (false, target, last, attempts) now = (
    record d {
      status = execution_failed;
      execution_result =
          some (record { is_ok = false; target_ref = none; error = last; attempts = attempts });
      updated_at = now;
    },
    emit_execution_failed d.id last attempts ∷ [],
  )

  -- The loop: attempts until one is done, at most one for each delay. The write-back adapter is a
  -- parameter, by the number of the attempt; of the delays only the number matters here.
  unfoldable pub attempt_from :
      (ℕ → ActionDraft N → Executed)
      → List ℕ
      → ℕ
      → Option String
      → ActionDraft N
      → Bool × Option String × Option String × ℕ
  attempt_from executor [] attempts last d = (false, none, last, attempts)
  attempt_from executor (delay ∷ rest) attempts last d = elim (executor (attempts + 1) d) [
    | done target ↦ (true, target, none, attempts + 1)
    | refused none ↦ attempt_from executor rest (attempts + 1) (some "executor returned ok=false") d
    | refused (some e) ↦ attempt_from executor rest (attempts + 1) (some e) d
    | crashed m ↦ attempt_from executor rest (attempts + 1) (some m) d
  ]

  module _ (executor : ℕ → ActionDraft N → Executed) (delays : List ℕ) where
    unfoldable pub execute :
        String → String → (started ended : ℕ) → World N → Result (ActionDraft N) × World N
    execute tenant id started ended w = elim (get tenant id w.drafts) [
      | none ↦ (error not_approved, w)
      | some d ↦
          let running = record d { status = executing; updated_at = started } in
          let (d', messages) = settle running (attempt_from executor delays 0 none running) ended in
          if not (is_approved d.status)
          then (error not_approved, w)
          else (ok d', commit d' messages (commit running [] w))
    ]

    unfoldable pub approve :
        AuthCtx
        → String
        → Option String
        → (now started ended : ℕ) → World N
        → Result (ActionDraft N) × World N
    unfolding open_step_for
    approve ctx id comment now started ended w = elim (get ctx.tenant_id id w.drafts) [
      | none ↦ (error not_found, w)
      | some d ↦ elim (open_step_for ctx d) [
        | error e ↦ (error e, w)
        | ok step ↦
            let steps =
              change_first_open (decided Decision.approve ctx.user_id comment now)
                d.approval_steps in
            let waiting = record d { approval_steps = steps; updated_at = now } in
            let final = record waiting { status = approved } in
            let w' =
              commit final
                (emit_approved d.id d.action_type_key ∷ notify_approved d.origin.user_id d.id ∷ [])
                w in
            if str_eq ctx.user_id d.origin.user_id
            then (error self_approval, w)
            else elim (first_open steps) [
              | some next ↦ (
                ok waiting,
                commit waiting
                    (emit_pending d.id d.action_type_key next.seq next.role
                      ∷ notify_role next.role d.origin.user_id d.id
                      ∷ [])
                    w,
              )
              | none ↦ execute ctx.tenant_id d.id started ended w'
            ]
      ]
    ]
