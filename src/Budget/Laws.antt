-- ===== src/Budget/Laws.antt =====
-- What a task can spend over any sequence of requests (apps/agentcore/src/tools/budget.ts).
use complete.Base.{
  ℕ, ◌+◌, ◌≤◌, ◌<◌, true, List, [], ◌∷◌, Option, none, some, ◌≡◌, ◌≢◌, arith, All, All-map, ap, ◌↔◌,
}
use complete.Budget.{
  AgentBudget, CostClass, cheap, expensive, Refusal, BudgetTracker, new, try_consume,
}

-- The requests of a task and of all that it nests, in the order in which they reach the tracker;
-- the answers are kept with them.
unfoldable pub consume_all :
    List (CostClass × ℕ) → BudgetTracker → List (CostClass × ℕ × Option Refusal) × BudgetTracker
consume_all [] b = ([], b)
consume_all ((cost, now) ∷ rest) b =
    let (answer, b') = try_consume cost now b in
    let (answers, end) = consume_all rest b' in ((cost, now, answer) ∷ answers, end)

-- What an answer grants: a call of a tool, and a call of a solver.
abbrev pub tool_of : Option Refusal → ℕ
tool_of none = 1
tool_of (some r) = 0

abbrev pub solver_of : CostClass → Option Refusal → ℕ
solver_of expensive none = 1
solver_of _ _ = 0

abbrev pub granted : List (CostClass × ℕ × Option Refusal) → ℕ
granted [] = 0
granted ((cost, now, answer) ∷ rest) = tool_of answer + granted rest

abbrev pub granted_expensive : List (CostClass × ℕ × Option Refusal) → ℕ
granted_expensive [] = 0
granted_expensive ((cost, now, answer) ∷ rest) = solver_of cost answer + granted_expensive rest

-- One request counts itself if it is granted, keeps the limits, and keeps the fixed fields.
record Step (cost : CostClass) (now : ℕ) (b : BudgetTracker) (answer : Option Refusal)
    (b' : BudgetTracker) : Type 0 where
  same_budget : b'.budget ≡ b.budget
  same_start : b'.started_at ≡ b.started_at
  tools : b'.tool_calls ≡ b.tool_calls + tool_of answer
  solvers : b'.solver_calls ≡ b.solver_calls + solver_of cost answer
  tool_limit : b.tool_calls ≤ b.budget.max_tool_calls → b'.tool_calls ≤ b.budget.max_tool_calls
  solver_limit :
      b.solver_calls ≤ b.budget.max_solver_calls → b'.solver_calls ≤ b.budget.max_solver_calls
  in_time : answer ≡ none → now ≤ b.started_at + b.budget.max_duration_ms
  marked : answer ≢ none → b'.exhausted ≡ true

try_consume-Step :
    (cost : CostClass) (now : ℕ) (b : BudgetTracker)
    → Step cost now b (try_consume cost now b).0 (try_consume cost now b).1
unfolding try_consume
try_consume-Step cheap now b = ground arith
try_consume-Step expensive now b = ground arith

consume_all-limits :
    (requests : List (CostClass × ℕ)) (b : BudgetTracker)
    → b.tool_calls ≤ b.budget.max_tool_calls
    → b.solver_calls ≤ b.budget.max_solver_calls
    → let (answers, end) = consume_all requests b in
      (granted answers + b.tool_calls ≤ b.budget.max_tool_calls)
      × (granted_expensive answers + b.solver_calls ≤ b.budget.max_solver_calls)
      × All (λ r. r.2 ≡ none → r.1 ≤ b.started_at + b.budget.max_duration_ms) answers
unfolding consume_all
consume_all-limits [] b h k = (omega arith, omega arith, tt)
consume_all-limits ((cost, now) ∷ rest) b h k =
    let (answer, b') = try_consume cost now b in
    let step = try_consume-Step cost now b in
    let most_tools = ap (λ (x : AgentBudget). x.max_tool_calls) step.same_budget in
    let most_solvers = ap (λ (x : AgentBudget). x.max_solver_calls) step.same_budget in
    let most_time = ap (λ (x : AgentBudget). x.max_duration_ms) step.same_budget in
    let tools = step.tool_limit h in
    let solvers = step.solver_limit k in
    let (ih_tools, ih_solvers, ih_times) = consume_all-limits rest b' (omega arith) (omega arith) in
    (
      omega (arith, step.tools),
      omega (arith, step.solvers),
      (
        step.in_time,
        All-map _ (λ r. r.2 ≡ none → r.1 ≤ b.started_at + b.budget.max_duration_ms)
            (λ r f fits. let le = f fits in omega (arith, step.same_start)) (consume_all rest b').0
            ih_times,
      ),
    )

-- Over any sequence of requests, by the task and by all that it nests, no more tool calls and no
-- more solver calls are granted than the budget says, and none after its time.
pub consume_all_bounded :
    (budget : AgentBudget) (start : ℕ) (requests : List (CostClass × ℕ))
    → let answers = (consume_all requests (new budget start)).0 in
      (granted answers ≤ budget.max_tool_calls)
      × (granted_expensive answers ≤ budget.max_solver_calls)
      × All (λ r. r.2 ≡ none → r.1 ≤ start + budget.max_duration_ms) answers
unfolding new
consume_all_bounded budget start requests =
    let (tools, solvers, times) =
      consume_all-limits requests (new budget start) (omega arith) (omega arith) in
    (omega arith, omega arith, times)

-- A request within the time, with a tool call left and a solver call left if it needs one, is
-- granted; any other is refused and marks the task exhausted, and its counts stay.
pub try_consume_iff :
    (cost : CostClass) (now : ℕ) (b : BudgetTracker)
    → let (answer, b') = try_consume cost now b in
      let Fits =
        (now ≤ b.started_at + b.budget.max_duration_ms)
        × (b.tool_calls < b.budget.max_tool_calls)
        × (cost ≡ expensive → b.solver_calls < b.budget.max_solver_calls) in
      ((answer ≡ none) ↔ Fits)
      × (answer ≢ none
          → (b'.exhausted ≡ true)
            × (b'.tool_calls ≡ b.tool_calls)
            × (b'.solver_calls ≡ b.solver_calls))
unfolding try_consume
try_consume_iff cheap now b = ground arith
try_consume_iff expensive now b = ground arith
