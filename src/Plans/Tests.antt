-- ===== src/Plans/Tests.antt =====
-- A plan of two steps (apps/agentcore/src/workflow/validate.ts).
use complete.Base.{◌≢◌, inl}
use complete.Plans.Cycles.{
  Node, agent, workflow, AgentDefinition, WorkflowDefinition, other_tool, workflow_tool, other_step,
  invoke_agent, Definitions, detect_static_cycle, found, clear, exhausted, dfs, neighbors,
  from_node,
}
use complete.Plans.Walks.{IsCycle, Walk, found-IsCycle, clear_acyclic}
use complete.Plans.Ends.{detect_total}
use complete.Base.{ℕ, String, true, List, [], ◌∷◌, none, some, ◌≡◌, refl}
use complete.Json.{str, end, field}
use complete.Plans.{invoke_solver, render_answer, PlanStep, PlanValidationOptions}

abbrev names_solve : String → List String
names_solve text = "solve" ∷ []

abbrev opts : PlanValidationOptions
opts = record { risk_level = none; requires_render_answer = true }

abbrev plan : List (PlanStep ℕ)
plan =
    record { id = "solve"; type = invoke_solver; timeout_ms = none; body = end }
    ∷ record {
      id = "render";
      type = render_answer;
      timeout_ms = some 5000;
      body = field "text" (str "{{steps.solve.output}}") end;
    }
    ∷ []

-- An agent that runs a workflow, which invokes the agent `callee`.
abbrev planner : AgentDefinition
planner = record { id = "planner"; tools = other_tool ∷ (workflow_tool "w" ∷ []) }

abbrev calls_back : WorkflowDefinition
calls_back = record { id = "w"; steps = other_step ∷ (invoke_agent "planner" ∷ []) }

abbrev looping : Definitions
looping = record {
  agents = planner ∷ [];
  workflows = [];
  pending_agent = none;
  pending_workflow = some calls_back;
}

abbrev loop : List Node
loop = workflow "w" ∷ agent "planner" ∷ workflow "w" ∷ []

loop-found : detect_static_cycle looping (workflow "w") ≡ found loop
unfolding detect_static_cycle dfs neighbors from_node
loop-found = refl

found-IsCycle_example : IsCycle (neighbors looping) loop
found-IsCycle_example = found-IsCycle looping (workflow "w") loop loop-found

abbrev straight : Definitions
straight = record looping {
  pending_workflow = some (record calls_back { steps = invoke_agent "reader" ∷ [] });
}

straight-clear :
    detect_static_cycle straight (agent "planner")
    ≡ clear (agent "planner" ∷ workflow "w" ∷ agent "reader" ∷ [])
unfolding detect_static_cycle dfs neighbors from_node
straight-clear = refl

clear_acyclic_example : ¬ Walk (neighbors straight) (agent "planner") (agent "planner")
clear_acyclic_example =
    clear_acyclic straight (agent "planner") (agent "planner")
      (agent "planner" ∷ workflow "w" ∷ agent "reader" ∷ []) straight-clear (inl refl)

detect_total_example : detect_static_cycle looping (agent "planner") ≢ exhausted
detect_total_example = detect_total looping (agent "planner")
