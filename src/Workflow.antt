-- ===== src/Workflow.antt =====
-- The executor of plans (apps/agentcore/src/workflow/executor.ts, `runWorkflow`): the steps one after
-- another, with the events that it emits. The resolution of templates, the tools, the language model,
-- the agents and the rendering are parameters; of an answer the model keeps what it is made from.
-- Durations, provenance and the references that are reported are left out, and an output is put as it
-- comes, without the object that wraps it. An exception that leaves `runWorkflow` ends the run without a
-- result; `emit` throws none, and a tool's payload has the shape that its step reads.
pub mod Laws
pub mod Steps
pub mod Turns
mod Tests
use complete.Base.{
  ℕ, String, Bool, true, false, not, ◌&&◌, List, [], ◌∷◌, ◌++◌, Option, none, some, filter,
  if◌then◌else◌, str_eq,
}
use complete.RuleEngine.Evaluate.{RuleVerdict}

-- The tool steps, of which two are treated on their own, and the others.
pub data StepType : Type 0 where
  tool : (name : String) → StepType
  invoke_solver evaluate_rules create_action_draft : StepType
  llm_compose invoke_agent invoke_mcp_tool render_answer : StepType

pub record Step (V : Type 0) : Type 0 where
  pub id : String
  pub type : StepType
  -- `onError` is SKIP
  pub skips : Bool
  pub timeout_ms : Option ℕ
  pub params : V

-- `stepOutputs`: null where a step was skipped.
abbrev pub Outputs : Type 0 → Type 0
Outputs V = List (String × Option V)

pub data ToolResult (V : Type 0) : Type 0 where
  denied : (code : Option String) → ToolResult V
  failed : (code : Option String) → ToolResult V
  done : (payload : V) → ToolResult V
  -- `executor.run` throws
  threw : ToolResult V

pub data Called (V : Type 0) : Type 0 where
  returned : V → Called V
  raised : (code : String) → Called V

-- Of `resolveTemplate`: a reference that cannot be resolved, or any other exception.
pub data Resolved (V : Type 0) : Type 0 where
  resolved : (params : V) → Resolved V
  unresolved threw : Resolved V

pub record Deps (V : Type 0) : Type 0 where
  pub resolve : V → Outputs V → Resolved V
  pub run_tool : StepType → V → (timeout_ms : ℕ) → ToolResult V
  pub verdicts_of : V → List RuleVerdict
  pub compose : V → Called V
  pub run_agent : Option (V → Called V)
  pub run_mcp : V → (timeout_ms : ℕ) → ToolResult V
  -- whether `renderAnswer` returns, from its parameters and the steps before
  pub can_render : V → Outputs V → Bool

pub data Answer (V : Type 0) : Type 0 where
  no_permission : StepType → (params : V) → Answer V
  blocked_by : List RuleVerdict → Answer V
  rendered : (params : V) → Answer V
  finished : Answer V

pub data WorkflowResult (V : Type 0) : Type 0 where
  completed : Answer V → WorkflowResult V
  failed : (code step_id : String) → WorkflowResult V

pub data Outcome : Type 0 where
  ok skipped denied failed : Outcome

pub data Event : Type 0 where
  started : (step_id : String) → Event
  completed : (step_id : String) → Outcome → Event
  draft_created : (step_id : String) → Event

-- A step puts its output and the loop goes on, or the run is over: with a result, perhaps behind an
-- output, or by an exception.
pub data Turn (V : Type 0) : Type 0 where
  next : Option V → Outcome → List Event → Turn V
  stop : (put : Option V) → Outcome → WorkflowResult V → Turn V
  raise : Turn V

abbrev pub solver_timeout_ms : ℕ
solver_timeout_ms = 30000

abbrev pub default_timeout_ms : ℕ
default_timeout_ms = 10000

abbrev pub timeout_of : StepType → Option ℕ → ℕ
timeout_of invoke_solver none = solver_timeout_ms
timeout_of invoke_solver (some ms) = ms
timeout_of _ ms = default_timeout_ms

abbrev pub code_or : String → Option String → String
code_or code none = code
code_or code (some c) = c

abbrev pub blocking : List RuleVerdict → List RuleVerdict
blocking vs = filter (λ v. not v.passed && v.is_block) vs

module _ {V : Type 0} (deps : Deps V) where
  abbrev pub rules_turn : V → List RuleVerdict → Turn V
  rules_turn payload [] = next (some payload) ok []
  rules_turn payload (v ∷ vs) = stop (some payload) ok (completed (blocked_by (v ∷ vs)))

  -- What a tool returned.
  abbrev pub done_turn : Step V → StepType → V → Turn V
  done_turn s evaluate_rules payload = rules_turn payload (blocking (deps.verdicts_of payload))
  done_turn s create_action_draft payload = next (some payload) ok (draft_created s.id ∷ [])
  done_turn s _ payload = next (some payload) ok []

  abbrev pub tool_turn : Step V → StepType → V → ToolResult V → Turn V
  tool_turn s type params (denied code) = stop none denied (completed (no_permission type params))
  tool_turn s type params (failed code) =
      if s.skips
      then next none skipped []
      else stop none failed (failed (code_or "TOOL_ERROR" code) s.id)
  tool_turn s type params (done payload) = done_turn s type payload
  tool_turn s type params threw = raise

  abbrev pub compose_turn : Step V → Called V → Turn V
  compose_turn s (returned text) = next (some text) ok []
  compose_turn s (raised code) = stop none failed (failed "LLM_COMPOSE_ERROR" s.id)

  abbrev pub called_turn : Step V → Called V → Turn V
  called_turn s (returned data') = next (some data') ok []
  called_turn s (raised code) = stop none failed (failed code s.id)

  abbrev pub agent_turn : Step V → V → Option (V → Called V) → Turn V
  agent_turn s params none = stop none failed (failed "UNSUPPORTED_STEP" s.id)
  agent_turn s params (some run) = called_turn s (run params)

  abbrev pub mcp_turn : Step V → ToolResult V → Turn V
  mcp_turn s (done payload) = next (some payload) ok []
  mcp_turn s (denied code) = stop none failed (failed (code_or "TOOL_ERROR" code) s.id)
  mcp_turn s (failed code) = stop none failed (failed (code_or "TOOL_ERROR" code) s.id)
  mcp_turn s threw = raise

  abbrev pub render_turn : V → Bool → Turn V
  render_turn params true = stop none ok (completed (rendered params))
  render_turn params false = raise

  -- The switch on the step's type.
  abbrev pub typed_turn : Step V → Outputs V → V → StepType → Turn V
  typed_turn s outputs params llm_compose = compose_turn s (deps.compose params)
  typed_turn s outputs params invoke_agent = agent_turn s params deps.run_agent
  typed_turn s outputs params invoke_mcp_tool = mcp_turn s (deps.run_mcp params default_timeout_ms)
  typed_turn s outputs params render_answer = render_turn params (deps.can_render params outputs)
  typed_turn s outputs params type =
      tool_turn s type params (deps.run_tool type params (timeout_of type s.timeout_ms))

  abbrev pub step_turn : Step V → Outputs V → Resolved V → Turn V
  step_turn s outputs unresolved = stop none failed (failed "TEMPLATE_RESOLUTION_ERROR" s.id)
  step_turn s outputs threw = raise
  step_turn s outputs (resolved params) = typed_turn s outputs params s.type

  unfoldable pub turn : Step V → Outputs V → Turn V
  turn s outputs = step_turn s outputs (deps.resolve s.params outputs)

pub record Run (V : Type 0) : Type 0 where
  -- none where an exception leaves the run
  pub result : Option (WorkflowResult V)
  pub outputs : Outputs V
  pub events : List Event

-- `stepOutputs[id] = …`
unfoldable pub set_output : {V : Type 0} → String → Option V → Outputs V → Outputs V
set_output id v [] = (id, v) ∷ []
set_output id v ((i, w) ∷ os) = if str_eq i id then (i, v) ∷ os else (i, w) ∷ set_output id v os

abbrev pub emitting : {V : Type 0} → List Event → Run V → Run V
emitting es r = record r { events = es ++ r.events }

-- What a step that ends the run has put before.
abbrev pub put_before : {V : Type 0} → String → Option V → Outputs V → Outputs V
put_before id none outputs = outputs
put_before id (some v) outputs = set_output id (some v) outputs

abbrev pub after : {V : Type 0} → Step V → Outputs V → Turn V → (Outputs V → Run V) → Run V
after s outputs (next v o es) k =
    emitting (started s.id ∷ completed s.id o ∷ es) (k (set_output s.id v outputs))
after s outputs (stop put o result) k = record {
  result = some result;
  outputs = put_before s.id put outputs;
  events = started s.id ∷ completed s.id o ∷ [];
}
after s outputs raise k = record { result = none; outputs = outputs; events = started s.id ∷ [] }

unfoldable pub run_workflow : {V : Type 0} → Deps V → List (Step V) → Outputs V → Run V
run_workflow deps [] outputs = record {
  result = some (completed finished);
  outputs = outputs;
  events = [];
}
run_workflow deps (s ∷ ss) outputs =
    after s outputs (turn deps s outputs) (λ outputs'. run_workflow deps ss outputs')
