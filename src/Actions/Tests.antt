-- ===== src/Actions/Tests.antt =====
-- Runs of action drafts (apps/datacore/src/actions.ts).
use complete.Base.{
  ℕ, String, Bool, true, false, List, [], ◌∷◌, none, some, ◌≡◌, ◌≢◌, refl, All, ◌==◌, if◌then◌else◌,
}
use complete.Store.{find_key, mem_key, get, put, list}
use complete.Json.{Fields, end}
use complete.Actions.Drafts.{
  AuthCtx, User, user_entity, ActionStatus, Decision, ActionDraft, draft_entity, base_role,
  has_role, first_open, change_first_open, open_steps,
}
use complete.Actions.Params.{validate_params}
use complete.Actions.World.{
  ActionType, type_entity, Verdict, Executed, done, refused, get_type, ineligible_role, is_eligible,
  open_step_for,
}
use complete.Actions.Service.{submit, create, check_payload, check_chain}
use complete.Actions.Execution.{attempt_from, execute, approve}
use complete.Actions.Traces.{Call, IsApprovedByOther, run, empty_world, executed_by_consent}
use complete.Actions.Attempts.{IsFirstDone, attempts_lem}

abbrev order_type : ActionType
order_type = record {
  id = "atype";
  tenant_id = "t";
  key = "place_order";
  params_schema = record { required = []; properties = [] };
  check_rules = [];
  approval_chain = "manager" ∷ [];
}

abbrev alice : AuthCtx
alice = record { tenant_id = "t"; user_id = "alice"; roles = "planner" ∷ [] }

abbrev bob : AuthCtx
bob = record { tenant_id = "t"; user_id = "bob"; roles = "manager" ∷ [] }

abbrev bob_user : User
bob_user = record { id = "bob"; tenant_id = "t"; username = "bob"; roles = "manager" ∷ [] }

abbrev no_rules : List String → Fields ℕ → List Verdict
no_rules rules payload = []

abbrev never_blank : String → Bool
never_blank s = false

abbrev if_first : ℕ → Executed
if_first n = if n == 2 then done (some "po-1") else refused none

abbrev second_try : ℕ → ActionDraft ℕ → Executed
second_try n d = if_first n

abbrev calls : List (Call ℕ)
calls =
    Call.create (order_type ∷ []) (bob_user ∷ []) alice "d1" "place_order" end none none true 10
    ∷ Call.approve second_try bob "d1" none 20 21 22
    ∷ []

abbrev executed_draft : ActionDraft ℕ
executed_draft = record {
  id = "d1";
  tenant_id = "t";
  action_type_key = "place_order";
  payload = end;
  origin = record { task_id = none; agent_id = none; user_id = "alice" };
  status = ActionStatus.executed;
  approval_steps =
      record {
        seq = 1;
        role = "manager";
        approver_id = some "bob";
        decision = some Decision.approve;
        comment = none;
        decided_at = some 20;
      }
      ∷ [];
  execution_result =
      some (record { is_ok = true; target_ref = some "po-1"; error = none; attempts = 2 });
  created_at = 10;
  updated_at = 22;
}

run-calls :
    get "t" "d1" (run no_rules never_blank (1000 ∷ 5000 ∷ []) calls empty_world).drafts
    ≡ some executed_draft
unfolding find_key mem_key put list create submit approve execute attempt_from open_step_for
    check_payload check_chain get_type ineligible_role is_eligible validate_params first_open
    change_first_open open_steps base_role has_role
run-calls = refl

executed_by_consent_example :
    (executed_draft.approval_steps ≢ [])
    × All (IsApprovedByOther executed_draft.origin.user_id) executed_draft.approval_steps
executed_by_consent_example =
    executed_by_consent no_rules never_blank (1000 ∷ 5000 ∷ []) calls "t" "d1" executed_draft
      run-calls refl

attempts_lem_example :
    IsFirstDone second_try executed_draft 0 2
      (attempt_from second_try (1000 ∷ 5000 ∷ []) 0 none executed_draft)
attempts_lem_example = attempts_lem second_try executed_draft (1000 ∷ 5000 ∷ []) 0 none
