-- ===== src/Workflow/Tests.antt =====
-- A plan whose second step is blocked by a rule (apps/agentcore/src/workflow/executor.ts).
use complete.Base.{ℕ, String, true, false, List, [], ◌∷◌, none, some, ◌≡◌, refl}
use complete.RuleEngine.Evaluate.{RuleVerdict}
use complete.Workflow.{
  StepType, invoke_solver, evaluate_rules, render_answer, Step, Outputs, Deps, ToolResult, done,
  Resolved, resolved, set_output, returned, completed, blocked_by, turn, run_workflow,
}
use complete.Workflow.Laws.{IsTrace, run_workflow-IsTrace}

abbrev violated : RuleVerdict
violated = record {
  rule_id = "C03";
  passed = false;
  is_block = true;
  explanation = "";
  rule_version = 1;
}

abbrev give : ℕ → Outputs ℕ → Resolved ℕ
give n outputs = resolved n

abbrev echo : StepType → ℕ → ℕ → ToolResult ℕ
echo type n ms = done n

abbrev deps : Deps ℕ
deps = record {
  resolve = give;
  run_tool = echo;
  verdicts_of = λ n. violated ∷ [];
  compose = λ n. returned n;
  run_agent = none;
  run_mcp = λ n ms. done n;
  can_render = λ n outputs. true;
}

abbrev step : String → StepType → Step ℕ
step id type = record { id = id; type = type; skips = false; timeout_ms = none; params = 0 }

abbrev plan : List (Step ℕ)
plan = step "solve" invoke_solver ∷ step "rules" evaluate_rules ∷ step "render" render_answer ∷ []

run-blocked : (run_workflow deps plan []).result ≡ some (completed (blocked_by (violated ∷ [])))
unfolding run_workflow turn
run-blocked = refl

-- The output of the rules that block is kept.
outputs-blocked : (run_workflow deps plan []).outputs ≡ ("solve", some 0) ∷ ("rules", some 0) ∷ []
unfolding run_workflow turn set_output
outputs-blocked = refl

run_workflow-IsTrace_example : IsTrace deps plan [] (run_workflow deps plan [])
run_workflow-IsTrace_example = run_workflow-IsTrace deps plan []
