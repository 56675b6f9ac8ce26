-- ===== src/Workflow/Steps.antt =====
-- When a step lets a run go on (apps/agentcore/src/workflow/executor.ts, the switch of `runWorkflow`),
-- said by the answers that the step gets, and what a step that ends the run has put.
use complete.Base.{◌⊎◌, ℕ, String, Bool, true, false, ◌&&◌, List, Option, none, some, ◌≡◌, All, all}
use complete.RuleEngine.Evaluate.{RuleVerdict}
use complete.Workflow.{
  StepType, tool, invoke_solver, evaluate_rules, create_action_draft, llm_compose, invoke_agent,
  invoke_mcp_tool, render_answer, Step, Outputs, ToolResult, failed, done, Called, returned,
  resolved, Deps, Outcome, ok, skipped, Event, draft_created, Turn, next, stop, raise,
}

abbrev pub goes_on : Outcome → Bool
goes_on ok = true
goes_on skipped = true
goes_on _ = false

abbrev pub is_draft : Event → Bool
is_draft (draft_created i) = true
is_draft _ = false

-- No rule that blocks is violated.
abbrev pub Unblocked : List RuleVerdict → Type 0
Unblocked vs = All (λ v. v.is_block ≡ true → v.passed ≡ true) vs

abbrev pub or_else : ℕ → Option ℕ → ℕ
or_else n none = n
or_else n (some m) = m

module _ {V : Type 0} where
  -- A tool gives the output that the step puts, and `Allows` the run to go on; or it fails, and the
  -- step says to skip a failure.
  abbrev pub Ran : (V → Type 0) → Step V → ToolResult V → Option V → Type 0
  Ran Allows s r put =
      ((p : V) × (r ≡ done p) × Allows p × (put ≡ some p))
      ⊎ ((code : Option String) × (r ≡ failed code) × (s.skips ≡ true) × (put ≡ none))

  abbrev pub Returned : Called V → Option V → Type 0
  Returned c put = (v : V) × (c ≡ returned v) × (put ≡ some v)

  abbrev pub Always : V → Type 0
  Always p = Unit

  module _ (deps : Deps V) (s : Step V) (outputs : Outputs V) where
    -- What a step of each type needs so that the run goes on, with the output that it then puts.
    abbrev pub Does : V → StepType → Option V → Type 0
    Does params (tool name) put = Ran Always s (deps.run_tool (tool name) params 10000) put
    Does params invoke_solver put =
        Ran Always s (deps.run_tool invoke_solver params (or_else 30000 s.timeout_ms)) put
    Does params evaluate_rules put =
        Ran (λ p. Unblocked (deps.verdicts_of p)) s (deps.run_tool evaluate_rules params 10000) put
    Does params create_action_draft put =
        Ran Always s (deps.run_tool create_action_draft params 10000) put
    Does params llm_compose put = Returned (deps.compose params) put
    Does params invoke_agent put =
        (run : V → Called V) × (deps.run_agent ≡ some run) × Returned (run params) put
    Does params invoke_mcp_tool put =
        (p : V) × (deps.run_mcp params 10000 ≡ done p) × (put ≡ some p)
    Does params render_answer put = ⊥

    abbrev pub Passes : Option V → Type 0
    Passes put =
        (params : V) × (deps.resolve s.params outputs ≡ resolved params) × Does params s.type put

    -- Of a step that ends the run only the output of rules that block is put.
    abbrev pub Keeps : V → StepType → Option V → Type 0
    Keeps params evaluate_rules put =
        let r = deps.run_tool evaluate_rules params 10000 in
        ((p : V) × (r ≡ done p) × (put ≡ some p)) ⊎ (((p : V) → ¬ (r ≡ done p)) × (put ≡ none))
    Keeps params type put = put ≡ none

    abbrev pub Leaves : Option V → Type 0
    Leaves put =
        ((params : V) × (deps.resolve s.params outputs ≡ resolved params) × Keeps params s.type put)
        ⊎ (((params : V) → ¬ (deps.resolve s.params outputs ≡ resolved params)) × (put ≡ none))

  -- What a turn says of the answers: `Goes` is what lets the run go on, `Stays` what is left if not.
  abbrev pub Fits : (Option V → Type 0) → (Option V → Type 0) → Turn V → Type 0
  Fits Goes Stays (next put o es) = Goes put × (goes_on o && all is_draft es ≡ true)
  Fits Goes Stays (stop put o result) = ((v : Option V) → ¬ Goes v) × Stays put
  Fits Goes Stays raise = ((v : Option V) → ¬ Goes v) × Stays none
