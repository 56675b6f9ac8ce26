-- ===== src/Workflow/Turns.antt =====
-- What each turn of the loop of `runWorkflow` (apps/agentcore/src/workflow/executor.ts) does, by the type
-- of the step and the answers that it gets.
use complete.Base.{
  ◌⊎◌, inl, inr, ℕ, String, Bool, true, false, not, ◌&&◌, List, [], ◌∷◌, Option, none, some, ◌≡◌,
  refl, arith, Bool-cases, subst, if◌then◌else◌,
}
use complete.RuleEngine.Evaluate.{RuleVerdict}
use complete.Workflow.{
  StepType, tool, invoke_solver, evaluate_rules, create_action_draft, llm_compose, invoke_agent,
  invoke_mcp_tool, render_answer, Step, Outputs, ToolResult, denied, failed, done, threw, Called,
  returned, raised, Resolved, resolved, unresolved, Deps, Outcome, skipped, WorkflowResult,
  done_turn, Turn, next, stop, raise, blocking, rules_turn, tool_turn, compose_turn, called_turn,
  agent_turn, mcp_turn, render_turn, typed_turn, step_turn, turn, timeout_of,
}
use complete.Workflow.Steps.{
  Unblocked, or_else, Ran, Returned, Always, Does, Passes, Keeps, Leaves, Fits,
}

blocking-Unblocked : (vs : List RuleVerdict) → blocking vs ≡ [] → Unblocked vs
blocking-Unblocked [] e = tt
blocking-Unblocked (v ∷ vs) e = elim (Bool-cases (not v.passed && v.is_block)) [
  | inl h ↦ let e' = rw h at e in absurd (cc)
  | inr h ↦ (λ b. ground arith, blocking-Unblocked vs (rw h at e))
]

Unblocked-blocking : (vs : List RuleVerdict) → Unblocked vs → blocking vs ≡ []
Unblocked-blocking [] h = refl
Unblocked-blocking (v ∷ vs) h = elim (Bool-cases (not v.passed && v.is_block)) [
  | inl e ↦ let passed = h.0 in absurd (ground arith)
  | inr e ↦ rw e (Unblocked-blocking vs h.1)
]

some_injective : {A : Type 0} {a b : A} → some a ≡ some b → a ≡ b
some_injective e = cc

module _ {V : Type 0} where
  RulesStay : ToolResult V → Option V → Type 0
  RulesStay r put =
      ((p : V) × (r ≡ done p) × (put ≡ some p)) ⊎ (((p : V) → ¬ (r ≡ done p)) × (put ≡ none))

  not-Ran :
      (Allows : V → Type 0) (s : Step V) (r : ToolResult V)
      → ((p : V) → ¬ (r ≡ done p))
      → ((code : Option String) → ¬ (r ≡ failed code))
      → (put : Option V) → ¬ Ran Allows s r put
  not-Ran Allows s r no_payload no_failure put (inl (p, e, allows, e')) = no_payload p e
  not-Ran Allows s r no_payload no_failure put (inr (code, e, skips, e')) = no_failure code e

  not-skipped :
      (Allows : V → Type 0) (s : Step V) (code : Option String)
      → s.skips ≡ false
      → (put : Option V) → ¬ Ran Allows s (failed code) put
  not-skipped Allows s code e put (inl (p, e', allows, same)) = cc
  not-skipped Allows s code e put (inr (c, e', on, same)) = cc

  fails-Fits :
      (Allows : V → Type 0) (Stays : Option V → Type 0) (s : Step V) (code : Option String)
      (o : Outcome) (result : WorkflowResult V) (skips : Bool)
      → s.skips ≡ skips
      → Stays none
      → Fits
          (Ran Allows s (failed code))
          Stays
          (if skips then next none skipped [] else stop none o result)
  fails-Fits Allows Stays s code o result true e stays = (inr (code, refl, e, refl), refl)
  fails-Fits Allows Stays s code o result false e stays = (not-skipped Allows s code e, stays)

  module _ (deps : Deps V) (s : Step V) (params : V) where
    rules-Fits :
        (p : V) (vs : List RuleVerdict)
        → blocking (deps.verdicts_of p) ≡ vs
        → Fits
            (Ran (λ q. Unblocked (deps.verdicts_of q)) s (done p))
            (RulesStay (done p))
            (rules_turn deps p vs)
    unfolding RulesStay
    rules-Fits p [] e = (inl (p, refl, blocking-Unblocked (deps.verdicts_of p) e, refl), refl)
    rules-Fits p (v ∷ vs) e = (
      λ put h. elim h [
        | inl (q, e', free, same_put) ↦
            let same : p ≡ q = cc in
            let none_blocks = Unblocked-blocking (deps.verdicts_of p) (rw same free) in absurd (cc)
        | inr (code, e', skips, same_put) ↦ absurd (cc)
      ],
      inl (p, refl, refl),
    )

    rules_tool-Fits :
        (r : ToolResult V)
        → Fits
            (Ran (λ q. Unblocked (deps.verdicts_of q)) s r)
            (RulesStay r)
            (tool_turn deps s evaluate_rules params r)
    unfolding RulesStay
    rules_tool-Fits (denied code) =
        (not-Ran _ s (denied code) (λ p e. cc) (λ c e. cc), inr ((λ p e. cc), refl))
    rules_tool-Fits (failed code) =
        fails-Fits _ (RulesStay (failed code)) s code _ _ s.skips refl (inr ((λ p e. cc), refl))
    rules_tool-Fits (done p) = rules-Fits p (blocking (deps.verdicts_of p)) refl
    rules_tool-Fits threw = (not-Ran _ s threw (λ p e. cc) (λ c e. cc), inr ((λ p e. cc), refl))

    abbrev Stay : Option V → Type 0
    Stay put = put ≡ none

    -- A tool step of a type that goes on with each payload.
    tool-Fits :
        (t : StepType) (r : ToolResult V)
        → ((p : V) → Fits (Ran Always s (done p)) Stay (done_turn deps s t p))
        → Fits (Ran Always s r) Stay (tool_turn deps s t params r)
    tool-Fits t (denied code) each = (not-Ran _ s (denied code) (λ p e. cc) (λ c e. cc), refl)
    tool-Fits t (failed code) each = fails-Fits _ Stay s code _ _ s.skips refl refl
    tool-Fits t (done p) each = each p
    tool-Fits t threw each = (not-Ran _ s threw (λ p e. cc) (λ c e. cc), refl)

    mcp-Fits :
        (r : ToolResult V)
        → Fits (λ put. (p : V) × (r ≡ done p) × (put ≡ some p)) Stay (mcp_turn deps s r)
    mcp-Fits (done p) = ((p, refl, refl), refl)
    mcp-Fits (denied code) = ((λ put h. let e = h.1 in absurd (cc)), refl)
    mcp-Fits (failed code) = ((λ put h. let e = h.1 in absurd (cc)), refl)
    mcp-Fits threw = ((λ put h. let e = h.1 in absurd (cc)), refl)

    agent_ran-Fits :
        (run : V → Called V) (c : Called V)
        → run params ≡ c
        → Fits
            (λ put. (run' : V → Called V) × (some run ≡ some run') × Returned (run' params) put)
            Stay
            (called_turn deps s c)
    agent_ran-Fits run (returned v) e = ((run, refl, (v, e, refl)), refl)
    agent_ran-Fits run (raised code) e = (
      λ put h.
          let (run', same, (v, e', _)) = h in
          let is_run : run ≡ run' = some_injective same in absurd (cc),
      refl,
    )

    agent-Fits :
        (agent : Option (V → Called V))
        → Fits
            (λ put. (run : V → Called V) × (agent ≡ some run) × Returned (run params) put)
            Stay
            (agent_turn deps s params agent)
    agent-Fits none = ((λ put h. let e = h.1 in absurd (cc)), refl)
    agent-Fits (some run) = agent_ran-Fits run (run params) refl

    compose-Fits : (c : Called V) → Fits (Returned c) Stay (compose_turn deps s c)
    compose-Fits (returned v) = ((v, refl, refl), refl)
    compose-Fits (raised code) = ((λ put h. let e = h.1 in absurd (cc)), refl)

    solver-Fits :
        (ms : Option ℕ)
        → Fits (Ran Always s (deps.run_tool invoke_solver params (or_else 30000 ms))) Stay (
            tool_turn deps s invoke_solver params
              (deps.run_tool invoke_solver params (timeout_of invoke_solver ms)))
    solver-Fits none = tool-Fits invoke_solver _ (λ p. (inl (p, refl, tt, refl), refl))
    solver-Fits (some ms) = tool-Fits invoke_solver _ (λ p. (inl (p, refl, tt, refl), refl))

    render-Fits : (b : Bool) → Fits (λ put. ⊥) Stay (render_turn deps params b)
    render-Fits true = ((λ put h. h), refl)
    render-Fits false = ((λ put h. h), refl)

    module _ (outputs : Outputs V) where
      typed-Fits :
          (t : StepType)
          → Fits
              (Does deps s outputs params t)
              (Keeps deps s outputs params t)
              (typed_turn deps s outputs params t)
      unfolding RulesStay
      typed-Fits (tool name) = tool-Fits (tool name) _ (λ p. (inl (p, refl, tt, refl), refl))
      typed-Fits invoke_solver = solver-Fits s.timeout_ms
      typed-Fits evaluate_rules = rules_tool-Fits (deps.run_tool evaluate_rules params 10000)
      typed-Fits create_action_draft =
          tool-Fits create_action_draft _ (λ p. (inl (p, refl, tt, refl), refl))
      typed-Fits llm_compose = compose-Fits (deps.compose params)
      typed-Fits invoke_agent = agent-Fits deps.run_agent
      typed-Fits invoke_mcp_tool = mcp-Fits (deps.run_mcp params 10000)
      typed-Fits render_answer = render-Fits (deps.can_render params outputs)

  Fits-map :
      (P P' Q Q' : Option V → Type 0)
      → ((v : Option V) → P v → P' v)
      → ((v : Option V) → P' v → P v)
      → ((v : Option V) → Q v → Q' v)
      → (t : Turn V) → Fits P Q t
      → Fits P' Q' t
  Fits-map P P' Q Q' to from stay (next put o es) h = (to put h.0, h.1)
  Fits-map P P' Q Q' to from stay (stop put o result) h = ((λ v g. h.0 v (from v g)), stay put h.1)
  Fits-map P P' Q Q' to from stay raise h = ((λ v g. h.0 v (from v g)), stay none h.1)

  resolved-Fits :
      (deps : Deps V) (s : Step V) (outputs : Outputs V) (r : Resolved V)
      → deps.resolve s.params outputs ≡ r
      → Fits (Passes deps s outputs) (Leaves deps s outputs) (step_turn deps s outputs r)
  resolved-Fits deps s outputs (resolved params) e =
      Fits-map (Does deps s outputs params s.type) (Passes deps s outputs)
        (Keeps deps s outputs params s.type) (Leaves deps s outputs) (λ put h. (params, e, h))
        (λ put h.
          let (params', e', does) = h in
          let same : params' ≡ params = cc in
          subst (λ ps. Does deps s outputs ps s.type put) same does)
        (λ put h. inl (params, e, h)) (typed_turn deps s outputs params s.type)
        (typed-Fits deps s params outputs s.type)
  resolved-Fits deps s outputs unresolved e =
      ((λ put h. let e' = h.1 in absurd (cc)), inr ((λ params e'. cc), refl))
  resolved-Fits deps s outputs threw e =
      ((λ put h. let e' = h.1 in absurd (cc)), inr ((λ params e'. cc), refl))

  -- Each step does what is said of it.
  pub turn-Fits :
      (deps : Deps V) (s : Step V) (outputs : Outputs V)
      → Fits (Passes deps s outputs) (Leaves deps s outputs) (turn deps s outputs)
  unfolding turn
  turn-Fits deps s outputs = resolved-Fits deps s outputs (deps.resolve s.params outputs) refl
