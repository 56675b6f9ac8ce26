-- ===== src/Budget.antt =====
-- The tool budget of a task (apps/agentcore/src/tools/budget.ts, `BudgetTracker`; the defaults are in
-- packages/contracts/src/qos.ts). The clock is an argument of each call, in milliseconds.
mod Tests
pub mod Laws
use complete.Base.{
  ℕ, ◌+◌, ◌-◌, Bool, true, false, ◌&&◌, List, [], ◌∷◌, Option, none, some, if◌then◌else◌, ltb, leb,
}

pub record AgentBudget : Type 0 where
  pub max_iterations : ℕ
  pub max_tool_calls : ℕ
  pub max_solver_calls : ℕ
  pub max_duration_ms : ℕ
  pub max_clarifications : ℕ

abbrev pub default_agent_budget : AgentBudget
default_agent_budget = record {
  max_iterations = 8;
  max_tool_calls = 10;
  max_solver_calls = 2;
  max_duration_ms = 90000;
  max_clarifications = 0;
}

pub data CostClass : Type 0 where
  cheap expensive : CostClass

pub data Refusal : Type 0 where
  max_duration_exceeded max_tool_calls_exceeded max_solver_calls_exceeded : Refusal

pub record BudgetTracker : Type 0 where
  pub budget : AgentBudget
  pub tool_calls : ℕ
  pub solver_calls : ℕ
  pub iterations : ℕ
  pub started_at : ℕ
  pub exhausted : Bool

unfoldable pub new : AgentBudget → ℕ → BudgetTracker
new budget now = record {
  budget = budget;
  tool_calls = 0;
  solver_calls = 0;
  iterations = 0;
  started_at = now;
  exhausted = false;
}

-- `Date.now() - startedAt > maxDurationMs`
unfoldable pub duration_exceeded : ℕ → BudgetTracker → Bool
duration_exceeded now b = ltb (b.started_at + b.budget.max_duration_ms) now

unfoldable pub iterations_exceeded : BudgetTracker → Bool
iterations_exceeded b = leb b.budget.max_iterations b.iterations

abbrev is_expensive : CostClass → Bool
is_expensive cheap = false
is_expensive expensive = true

-- `none` is `{ ok: true }`.
unfoldable pub try_consume : CostClass → ℕ → BudgetTracker → Option Refusal × BudgetTracker
unfolding duration_exceeded
try_consume cost now b =
    let exhausted = record b { exhausted = true } in
    if duration_exceeded now b
    then (some max_duration_exceeded, exhausted)
    else if leb b.budget.max_tool_calls b.tool_calls
    then (some max_tool_calls_exceeded, exhausted)
    else if is_expensive cost && leb b.budget.max_solver_calls b.solver_calls
    then (some max_solver_calls_exceeded, exhausted)
    else (
      none,
      record b {
        tool_calls = b.tool_calls + 1;
        solver_calls = if is_expensive cost then b.solver_calls + 1 else b.solver_calls;
      },
    )
