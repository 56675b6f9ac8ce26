-- ===== src/Plans.antt =====
-- The validation of plans before they are published (apps/agentcore/src/workflow/validate.ts,
-- `collectStepRefs`, `stepTimeoutBound` and `validatePlanSteps`). What the regular expression finds in
-- a text is a parameter. A step is its id, its type, its time limit and itself as a value.
pub mod Laws
pub mod Cycles
pub mod Orders
pub mod Walks
pub mod Ends
mod Tests
use complete.Base.{
  ℕ, ◌+◌, String, Bool, true, false, not, ◌&&◌, List, [], ◌∷◌, ◌++◌, Option, none, some, map,
  if◌then◌else◌, ltb, str_eq, any,
}
use complete.Json.{Json, null, bool, num, str, arr, obj, Items, nil, item, Fields, end, field}

pub data StepType : Type 0 where
  invoke_solver render_answer create_action_draft other : StepType

pub record PlanStep (N : Type 0) : Type 0 where
  pub id : String
  pub type : StepType
  pub timeout_ms : Option ℕ
  pub body : Fields N

pub data RiskLevel : Type 0 where
  read compute action_draft : RiskLevel

pub record PlanValidationOptions : Type 0 where
  pub risk_level : Option RiskLevel
  pub requires_render_answer : Bool

pub data PlanError : Type 0 where
  repeated_id : String → PlanError
  unknown_ref : (step ref : String) → PlanError
  forward_ref : (step ref : String) → PlanError
  render_not_last : PlanError
  draft_not_allowed : PlanError
  render_missing : PlanError
  timeout_exceeded : ℕ → PlanError

abbrev pub workflow_total_timeout_limit_ms : ℕ
workflow_total_timeout_limit_ms = 300000

abbrev pub is_solver : StepType → Bool
is_solver invoke_solver = true
is_solver _ = false

abbrev pub is_render : StepType → Bool
is_render render_answer = true
is_render _ = false

abbrev pub is_action_draft : StepType → Bool
is_action_draft create_action_draft = true
is_action_draft _ = false

-- `create_action_draft` is out of place at a level that is given and is not ACTION_DRAFT.
abbrev pub forbids_draft : Option RiskLevel → Bool
forbids_draft none = false
forbids_draft (some action_draft) = false
forbids_draft (some _) = true

abbrev pub has : List String → String → Bool
has set k = any (str_eq k) set

-- `acc.add(k)`
abbrev pub add : List String → String → List String
add set k = if has set k then set else set ++ k ∷ []

abbrev add_all : List String → List String → List String
add_all set [] = set
add_all set (k ∷ ks) = add_all (add set k) ks

abbrev is_last {ℓ} : {A : Type ℓ} → List A → Bool
is_last [] = true
is_last (x ∷ xs) = false

-- For each reference: the step it names has to be there, and before.
unfoldable pub ref_errors : String → (ids seen refs : List String) → List PlanError
ref_errors step ids seen [] = []
ref_errors step ids seen (ref ∷ refs) =
    let rest = ref_errors step ids seen refs in
    if not (has ids ref)
    then unknown_ref step ref ∷ rest
    else if not (has seen ref)
    then forward_ref step ref ∷ rest
    else rest

abbrev pub when : Bool → PlanError → List PlanError
when b e = if b then e ∷ [] else []

module _ {N : Type 0} where
  abbrev pub is_render_step : PlanStep N → Bool
  is_render_step s = is_render s.type

  unfoldable pub step_timeout_bound : PlanStep N → ℕ
  step_timeout_bound s = elim s.timeout_ms [
    | some t ↦ t
    | none ↦ if is_solver s.type then 30000 else 10000
  ]

  unfoldable pub total_timeout : List (PlanStep N) → ℕ
  unfolding step_timeout_bound
  total_timeout [] = 0
  total_timeout (s ∷ steps) = step_timeout_bound s + total_timeout steps

  abbrev pub last_is_render : List (PlanStep N) → Bool
  last_is_render [] = false
  last_is_render (s ∷ []) = is_render s.type
  last_is_render (s ∷ (s' ∷ steps)) = last_is_render (s' ∷ steps)

  module _ (matches : String → List String) where
    unfoldable mutual
      pub collect_refs : Json N → List String → List String
      collect_refs null acc = acc
      collect_refs (bool b) acc = acc
      collect_refs (num n) acc = acc
      collect_refs (str s) acc = add_all acc (matches s)
      collect_refs (arr vs) acc = collect_items vs acc
      collect_refs (obj fs) acc = collect_fields fs acc

      pub collect_items : Items N → List String → List String
      collect_items nil acc = acc
      collect_items (item v vs) acc = collect_items vs (collect_refs v acc)

      pub collect_fields : Fields N → List String → List String
      collect_fields end acc = acc
      collect_fields (field k v fs) acc = collect_fields fs (collect_refs v acc)

    abbrev pub refs_of : PlanStep N → List String
    refs_of s = collect_refs (obj s.body) []

    module _ (opts : PlanValidationOptions) where
      unfoldable pub step_errors :
          (ids seen : List String) → PlanStep N → List (PlanStep N) → List PlanError
      unfolding ref_errors collect_refs
      step_errors ids seen s rest =
          when (has seen s.id) (repeated_id s.id)
          ++ (ref_errors s.id ids seen (refs_of s)
              ++ (when (is_render s.type && not (is_last rest)) render_not_last
                  ++ when (is_action_draft s.type && forbids_draft opts.risk_level)
                      draft_not_allowed))

      unfoldable pub errors_from : (ids seen : List String) → List (PlanStep N) → List PlanError
      unfolding step_errors
      errors_from ids seen [] = []
      errors_from ids seen (s ∷ rest) =
          step_errors ids seen s rest ++ errors_from ids (add seen s.id) rest

      unfoldable pub validate_plan_steps : List (PlanStep N) → List PlanError
      unfolding errors_from total_timeout
      validate_plan_steps steps =
          errors_from (map (λ s. s.id) steps) [] steps
          ++ (when (opts.requires_render_answer && not (last_is_render steps)) render_missing
              ++ when (ltb workflow_total_timeout_limit_ms (total_timeout steps))
                  (timeout_exceeded (total_timeout steps)))
