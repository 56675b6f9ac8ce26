-- ===== src/Actions/Approval.antt =====
-- The approval invariant of stored drafts and its preservation by every operation
-- (apps/datacore/src/actions.ts, `ActionService`).
use complete.Base.{
  ℕ, String, Bool, true, false, List, [], ◌∷◌, Option, none, some, ◌≡◌, ◌≢◌, inl, inr, refl, All,
  All-map, Bool-cases, str_eq, eq_iff,
}
use complete.Store.{mem_key, get}
use complete.Store.Laws.{All-put, All-find_key}
use complete.Json.{Fields}
use complete.Actions.Drafts.{
  AuthCtx, User, user_entity, ActionStatus, draft, pending_approval, approved, executing, executed,
  execution_failed, Decision, ActionDraft, draft_entity, decided,
}
use complete.Actions.World.{
  emit_cancelled, emit_rejected, notify_rejected, ActionType, Verdict, Message, World, commit,
  get_type,
}
use complete.Actions.Service.{submit, create, reject, cancel, chain_of}
use complete.Actions.Outcomes.{
  cancelled_draft, cancel_outcome, rejected_draft, reject_outcome, submitted_draft, submit_messages,
  submit_outcome,
}
use complete.Actions.Chain.{
  IsOpen, IsApproved, IsClean, IsIndependent, IsSequential, change_first_open-All,
  decided-IsSequential, open_steps-All, All-open-IsSequential,
}

-- The statuses that lie behind the approval.
abbrev pub was_approved : ActionStatus → Bool
was_approved approved = true
was_approved executing = true
was_approved executed = true
was_approved execution_failed = true
was_approved _ = false

pub differs : (s t : String) → str_eq s t ≡ false → s ≢ t
differs s t e same = absurd (cc (e, (eq_iff s t).1 same))

module _ {N : Type 0} where
  pub record IsValid (d : ActionDraft N) : Type 0 where
    pub sequential : IsSequential d.approval_steps
    pub independent : All (IsIndependent d.origin.user_id) d.approval_steps
    pub clean : d.status ≡ pending_approval → All IsClean d.approval_steps
    pub passed :
        was_approved d.status ≡ true → (d.approval_steps ≢ []) × All IsApproved d.approval_steps

  abbrev pub IsValidWorld : World N → Type 0
  IsValidWorld w = All IsValid w.drafts

  pub commit-IsValid :
      (d : ActionDraft N) (messages : List Message) (w : World N)
      → IsValid d
      → IsValidWorld w
      → IsValidWorld (commit d messages w)
  commit-IsValid d messages w v h = All-put IsValid d w.drafts v h

  pub found-IsValid :
      (tenant id : String) (d : ActionDraft N) (w : World N)
      → IsValidWorld w
      → get tenant id w.drafts ≡ some d
      → IsValid d
  found-IsValid tenant id d w h found = All-find_key IsValid (mem_key tenant id) w.drafts d h found

  -- A draft whose chain stays and whose status does not claim an approval.
  pub same_chain-IsValid :
      (d d' : ActionDraft N)
      → IsValid d
      → d'.approval_steps ≡ d.approval_steps
      → d'.origin ≡ d.origin
      → d'.status ≢ pending_approval
      → (was_approved d'.status ≡ true → was_approved d.status ≡ true)
      → IsValid d'
  same_chain-IsValid d d' v same origin closed_ behind = record {
    sequential = rw same v.sequential;
    independent = rw (same, origin) v.independent;
    clean = λ s. absurd (closed_ s);
    passed = λ s. rw same (v.passed (behind s));
  }

  pub cancel-IsValid :
      (ctx : AuthCtx) (id : String) (now : ℕ) (w : World N)
      → IsValidWorld w
      → IsValidWorld (cancel ctx id now w).1
  cancel-IsValid ctx id now w h = elim (cancel_outcome ctx id now w) [
    | inl (_, same) ↦ rw same h
    | inr (d, found, _, e) ↦ rw e (
        commit-IsValid (cancelled_draft d now) (emit_cancelled d.id ∷ []) w
          (same_chain-IsValid d (cancelled_draft d now) (found-IsValid ctx.tenant_id id d w h found)
            refl refl (λ s. cc) (λ s. cc))
          h)
  ]

  rejected-IsValid :
      (ctx : AuthCtx) (comment : String) (now : ℕ) (d : ActionDraft N)
      → IsValid d
      → IsValid (rejected_draft ctx comment now d)
  rejected-IsValid ctx comment now d v =
      let f = decided Decision.reject ctx.user_id (some comment) now in
      record {
        sequential =
            decided-IsSequential Decision.reject ctx.user_id (some comment) now d.approval_steps
              v.sequential;
        independent =
            change_first_open-All (IsIndependent d.origin.user_id) f d.approval_steps
              (λ s _ a. absurd (cc)) v.independent;
        clean = λ s. absurd (cc);
        passed = λ s. absurd (cc);
      }

  pub reject-IsValid :
      (is_blank : String → Bool) (ctx : AuthCtx) (id comment : String) (now : ℕ) (w : World N)
      → IsValidWorld w
      → IsValidWorld (reject is_blank ctx id comment now w).1
  reject-IsValid is_blank ctx id comment now w h =
      elim (reject_outcome is_blank ctx id comment now w) [
        | inl (_, same) ↦ rw same h
        | inr (d, s, found, _, _, _, e) ↦ rw e (
            commit-IsValid (rejected_draft ctx comment now d)
              (emit_rejected d.id s.seq comment
                ∷ notify_rejected d.origin.user_id d.id comment
                ∷ [])
              w (rejected-IsValid ctx comment now d (found-IsValid ctx.tenant_id id d w h found)) h)
      ]

  -- A chain that is open throughout.
  open_chain-IsValid :
      (d : ActionDraft N) → All IsOpen d.approval_steps → was_approved d.status ≡ false → IsValid d
  open_chain-IsValid d h e = record {
    sequential = All-open-IsSequential d.approval_steps h;
    independent =
        All-map IsOpen (IsIndependent d.origin.user_id) (λ s o a. absurd (cc)) d.approval_steps h;
    clean = λ _. All-map IsOpen IsClean (λ s o. inl o) d.approval_steps h;
    passed = λ s. absurd (cc);
  }

  abbrev new_draft :
      AuthCtx → String → String → Fields N → Option String → Option String → ℕ → ActionDraft N
  new_draft ctx id type_key payload task agent now = record {
    id = id;
    tenant_id = ctx.tenant_id;
    action_type_key = type_key;
    payload = payload;
    origin = record { task_id = task; agent_id = agent; user_id = ctx.user_id };
    status = draft;
    approval_steps = [];
    execution_result = none;
    created_at = now;
    updated_at = now;
  }

  module _ (evaluate_rules : List String → Fields N → List Verdict) (types : List ActionType)
      (users : List User) where
    pub submit-IsValid :
        (ctx : AuthCtx) (id : String) (now : ℕ) (w : World N)
        → IsValidWorld w
        → IsValidWorld (submit evaluate_rules types users ctx id now w).1
    submit-IsValid ctx id now w h = elim (submit_outcome evaluate_rules types users ctx id now w) [
      | inl (_, same) ↦ rw same h
      | inr (d, found, _, _, _, e) ↦ rw e (
          commit-IsValid (submitted_draft evaluate_rules types users ctx id now w d)
            (submit_messages evaluate_rules types users ctx id now w d) w
            (open_chain-IsValid (submitted_draft evaluate_rules types users ctx id now w d)
              (open_steps-All 0 (chain_of (get_type types ctx.tenant_id d.action_type_key))) refl)
            h)
    ]

    pub create-IsValid :
        (ctx : AuthCtx) (id type_key : String) (payload : Fields N) (task agent : Option String)
        (submits : Bool) (now : ℕ) (w : World N)
        → IsValidWorld w
        → IsValidWorld
            (create evaluate_rules types users ctx id type_key payload task agent submits now w).1
    unfolding create
    create-IsValid ctx id type_key payload task agent submits now w h =
        let d = new_draft ctx id type_key payload task agent now in
        let w' = commit d [] w in
        let h' = commit-IsValid d [] w (open_chain-IsValid d tt refl) h in
        elim (Bool-cases submits) [
          | inl e ↦ rw e (submit-IsValid ctx id now w' h')
          | inr e ↦ rw e h'
        ]
