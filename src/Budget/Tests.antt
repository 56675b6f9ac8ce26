-- ===== src/Budget/Tests.antt =====
-- Requests of one task (apps/agentcore/src/tools/budget.ts).
use complete.Base.{ℕ, ◌+◌, ◌≤◌, List, [], ◌∷◌, none, ◌≡◌, All}
use complete.Budget.{CostClass, cheap, expensive, default_agent_budget, new}
use complete.Budget.Laws.{consume_all, granted, granted_expensive, consume_all_bounded}

abbrev requests : List (CostClass × ℕ)
requests = (expensive, 10) ∷ (expensive, 20) ∷ (expensive, 30) ∷ (cheap, 40) ∷ (cheap, 90001) ∷ []

consume_all_bounded_example :
    let answers = (consume_all requests (new default_agent_budget 0)).0 in
    (granted answers ≤ default_agent_budget.max_tool_calls)
    × (granted_expensive answers ≤ default_agent_budget.max_solver_calls)
    × All (λ r. r.2 ≡ none → r.1 ≤ 0 + default_agent_budget.max_duration_ms) answers
consume_all_bounded_example = consume_all_bounded default_agent_budget 0 requests
