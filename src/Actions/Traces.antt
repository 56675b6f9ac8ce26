-- ===== src/Actions/Traces.antt =====
-- Sequences of calls of `ActionService` (apps/datacore/src/actions.ts), from a service with no drafts.
use complete.Base.{ℕ, String, Bool, true, List, [], ◌∷◌, Option, some, ◌≡◌, ◌≢◌, All, All-both}
use complete.Store.{mem_key, get}
use complete.Store.Laws.{All-find_key}
use complete.Json.{Fields}
use complete.Actions.Drafts.{AuthCtx, User, ApprovalStep, ActionDraft, draft_entity, Decision}
use complete.Actions.World.{ActionType, Verdict, Executed, World}
use complete.Actions.Service
use complete.Actions.Execution
use complete.Actions.Chain.{IsApproved, IsIndependent}
use complete.Actions.Approval.{
  was_approved, IsValid, IsValidWorld, cancel-IsValid, reject-IsValid, submit-IsValid,
  create-IsValid,
}
use complete.Actions.Approved.{execute-IsValid, approve-IsValid}

pub data Call (N : Type 0) : Type 0 where
  create :
      List ActionType
      → List User
      → AuthCtx
      → (id type_key : String) → Fields N
      → (task agent : Option String) → (submits : Bool) → (now : ℕ) → Call N
  submit : List ActionType → List User → AuthCtx → String → (now : ℕ) → Call N
  approve :
      (ℕ → ActionDraft N → Executed)
      → AuthCtx
      → String
      → Option String
      → (now started ended : ℕ) → Call N
  reject : AuthCtx → (id comment : String) → (now : ℕ) → Call N
  cancel : AuthCtx → String → (now : ℕ) → Call N
  execute : (ℕ → ActionDraft N → Executed) → (tenant id : String) → (started ended : ℕ) → Call N

-- Approved by somebody who is not the originator.
abbrev pub IsApprovedByOther : String → ApprovalStep → Type 0
IsApprovedByOther origin s =
    (s.decision ≡ some Decision.approve) × ((u : String) × (s.approver_id ≡ some u) × (u ≢ origin))

abbrev pub empty_world : {N : Type 0} → World N
empty_world = record { drafts = []; sent = [] }

module _ {N : Type 0} (evaluate_rules : List String → Fields N → List Verdict)
    (is_blank : String → Bool) (delays : List ℕ) where
  abbrev pub apply : Call N → World N → World N
  apply (Call.create types users ctx id key payload task agent submits now) w =
      (Service.create evaluate_rules types users ctx id key payload task agent submits now w).1
  apply (Call.submit types users ctx id now) w =
      (Service.submit evaluate_rules types users ctx id now w).1
  apply (Call.approve executor ctx id comment now started ended) w =
      (Execution.approve executor delays ctx id comment now started ended w).1
  apply (Call.reject ctx id comment now) w = (Service.reject is_blank ctx id comment now w).1
  apply (Call.cancel ctx id now) w = (Service.cancel ctx id now w).1
  apply (Call.execute executor tenant id started ended) w =
      (Execution.execute executor delays tenant id started ended w).1

  abbrev pub run : List (Call N) → World N → World N
  run [] w = w
  run (c ∷ calls) w = run calls (apply c w)

  apply-IsValid : (c : Call N) (w : World N) → IsValidWorld w → IsValidWorld (apply c w)
  apply-IsValid (Call.create types users ctx id key payload task agent submits now) w =
      create-IsValid evaluate_rules types users ctx id key payload task agent submits now w
  apply-IsValid (Call.submit types users ctx id now) w =
      submit-IsValid evaluate_rules types users ctx id now w
  apply-IsValid (Call.approve executor ctx id comment now started ended) w =
      approve-IsValid executor delays ctx id comment now started ended w
  apply-IsValid (Call.reject ctx id comment now) w = reject-IsValid is_blank ctx id comment now w
  apply-IsValid (Call.cancel ctx id now) w = cancel-IsValid ctx id now w
  apply-IsValid (Call.execute executor tenant id started ended) w =
      execute-IsValid executor delays tenant id started ended w

  -- After any sequence of calls that keeps to the approval invariant at its start, it is kept in every
  -- stored draft: the chain is decided from its front, no step is approved by the originator, a pending
  -- draft has no rejected step, and a draft behind the approval has all steps of a chain approved.
  pub run-IsValid :
      (calls : List (Call N)) (w : World N) → IsValidWorld w → IsValidWorld (run calls w)
  run-IsValid [] w h = h
  run-IsValid (c ∷ calls) w h = run-IsValid calls (apply c w) (apply-IsValid c w h)

  -- Whatever calls are made, and however the rules and the write-back adapters behave, a draft that is
  -- stored as approved, executing, executed or failed in execution has at least one approval step, and
  -- each of its steps was approved by a user who is not its originator.
  pub executed_by_consent :
      (calls : List (Call N)) (tenant id : String) (d : ActionDraft N)
      → get tenant id (run calls empty_world).drafts ≡ some d
      → was_approved d.status ≡ true
      → (d.approval_steps ≢ []) × All (IsApprovedByOther d.origin.user_id) d.approval_steps
  executed_by_consent calls tenant id d found behind =
      let v =
        All-find_key IsValid (mem_key tenant id) (run calls empty_world).drafts d
          (run-IsValid calls empty_world tt) found in
      let (some_step, h) = v.passed behind in
      (
        some_step,
        All-both IsApproved (IsIndependent d.origin.user_id) (IsApprovedByOther d.origin.user_id)
            (λ s a i. (a, i a)) d.approval_steps h v.independent,
      )
