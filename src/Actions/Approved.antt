-- ===== src/Actions/Approved.antt =====
-- The approval invariant is kept by execution and approval (apps/datacore/src/actions.ts, `execute` and
-- `approve` of `ActionService`).
use complete.Base.{
  ℕ, String, Bool, true, false, List, [], Option, none, some, ◌≡◌, inl, inr, refl, str_eq,
}
use complete.Actions.Drafts.{
  AuthCtx, user_entity, pending_approval, Decision, ApprovalStep, ActionDraft, draft_entity,
  first_open, decided,
}
use complete.Actions.World.{Executed, World, commit}
use complete.Actions.Execution.{attempt_from, settle, execute, approve}
use complete.Actions.Outcomes.{
  running_draft, settled, execute_outcome, approved_steps, waiting_draft, approved_draft,
  approved_messages, waiting_messages, approve_outcome,
}
use complete.Actions.Chain.{
  IsClean, IsIndependent, change_first_open-All, decided-IsSequential, All-IsApproved,
  first_open-change,
}
use complete.Actions.Approval.{
  was_approved, differs, IsValid, IsValidWorld, commit-IsValid, found-IsValid, same_chain-IsValid,
}

module _ {N : Type 0} where
  settled-IsValid :
      (d : ActionDraft N)
      → IsValid d
      → was_approved d.status ≡ true
      → (r : Bool × Option String × Option String × ℕ) (ended : ℕ) → IsValid (settle d r ended).0
  settled-IsValid d v status (true, target, last, attempts) ended =
      same_chain-IsValid d (settle d (true, target, last, attempts) ended).0 v refl refl (λ s. cc)
        (λ s. status)
  settled-IsValid d v status (false, target, last, attempts) ended =
      same_chain-IsValid d (settle d (false, target, last, attempts) ended).0 v refl refl (λ s. cc)
        (λ s. status)

  module _ (executor : ℕ → ActionDraft N → Executed) (delays : List ℕ) where
    pub execute-IsValid :
        (tenant id : String) (started ended : ℕ) (w : World N)
        → IsValidWorld w
        → IsValidWorld (execute executor delays tenant id started ended w).1
    execute-IsValid tenant id started ended w h =
        elim (execute_outcome executor delays ended tenant id started w) [
          | inl (_, same) ↦ rw same h
          | inr (d, found, status, e) ↦
              let running = running_draft d started in
              let end = settled executor delays ended running in
              let v =
                same_chain-IsValid d running (found-IsValid tenant id d w h found) refl refl
                  (λ s. cc) (λ s. rw status refl) in
              rw e (
                commit-IsValid end.0 end.1 (commit running [] w)
                  (settled-IsValid running v refl (attempt_from executor delays 0 none running)
                    ended)
                  (commit-IsValid running [] w v h))
        ]

    -- The open step of a pending draft is approved by somebody other than the originator.
    stepped-IsValid :
        (ctx : AuthCtx) (comment : Option String) (now : ℕ) (d d' : ActionDraft N)
        (s : ApprovalStep)
        → IsValid d
        → d.status ≡ pending_approval
        → first_open d.approval_steps ≡ some s
        → str_eq ctx.user_id d.origin.user_id ≡ false
        → d'.approval_steps ≡ approved_steps executor delays 0 ctx comment now d
        → d'.origin ≡ d.origin
        → (was_approved d'.status ≡ true → first_open d'.approval_steps ≡ none)
        → IsValid d'
    stepped-IsValid ctx comment now d d' s v pending opened other steps origin through =
        let f = decided Decision.approve ctx.user_id comment now in
        let clean =
          change_first_open-All IsClean f d.approval_steps (λ _ _. inr refl) (v.clean pending) in
        record {
          sequential = rw steps (
              decided-IsSequential Decision.approve ctx.user_id comment now d.approval_steps
                v.sequential);
          independent =
              rw (steps, origin)
                (change_first_open-All (IsIndependent d.origin.user_id) f d.approval_steps
                  (λ _ _ _. (ctx.user_id, refl, differs ctx.user_id d.origin.user_id other))
                  v.independent);
          clean = λ _. rw steps clean;
          passed = λ a. (
            rw steps (first_open-change f d.approval_steps (rw opened refl)),
            All-IsApproved d'.approval_steps (through a) (rw steps clean),
          );
        }

    pub approve-IsValid :
        (ctx : AuthCtx) (id : String) (comment : Option String) (now started ended : ℕ)
        (w : World N)
        → IsValidWorld w
        → IsValidWorld (approve executor delays ctx id comment now started ended w).1
    approve-IsValid ctx id comment now started ended w h =
        elim (approve_outcome executor delays ended ctx id comment now started w) [
          | inl (_, same) ↦ rw same h
          | inr (d, s, found, pending, opened, _, other, inl (next, _, e)) ↦
              let d' = waiting_draft executor delays ended ctx comment now d in
              rw e (
                commit-IsValid d' (waiting_messages executor delays ended d next) w
                  (stepped-IsValid ctx comment now d d' s
                    (found-IsValid ctx.tenant_id id d w h found) pending opened other refl refl
                    (λ a. absurd (cc)))
                  h)
          | inr (d, s, found, pending, opened, _, other, inr (through, e)) ↦
              let d' = approved_draft executor delays ended ctx comment now d in
              rw e (
                execute-IsValid ctx.tenant_id d.id started ended
                  (commit d' (approved_messages executor delays ended d) w)
                  (commit-IsValid d' (approved_messages executor delays ended d) w
                    (stepped-IsValid ctx comment now d d' s
                      (found-IsValid ctx.tenant_id id d w h found) pending opened other refl refl
                      (λ _. through))
                    h))
        ]
