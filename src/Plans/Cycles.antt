-- ===== src/Plans/Cycles.antt =====
-- The search for cycles among agents and workflows (apps/agentcore/src/workflow/validate.ts,
-- `detectStaticCycle`). A node stands for its key, the kind and the id. The search runs on fuel, one
-- more than the number of the definitions: only what is defined has neighbours.
use complete.Base.{
  ℕ, zero, suc, String, Bool, false, List, [], ◌∷◌, ◌++◌, Option, none, some, if◌then◌else◌, str_eq,
  any, map, length, find?,
}

pub data Node : Type 0 where
  agent : (id : String) → Node
  workflow : (id : String) → Node

abbrev pub same_node : Node → Node → Bool
same_node (agent i) (agent j) = str_eq i j
same_node (workflow i) (workflow j) = str_eq i j
same_node _ _ = false

abbrev pub member : Node → List Node → Bool
member n ns = any (same_node n) ns

pub data Tool : Type 0 where
  workflow_tool : (workflow_id : String) → Tool
  other_tool : Tool

pub record AgentDefinition : Type 0 where
  pub id : String
  pub tools : List Tool

pub data Step : Type 0 where
  invoke_agent : (agent_id : String) → Step
  other_step : Step

pub record WorkflowDefinition : Type 0 where
  pub id : String
  pub steps : List Step

-- The stored definitions, and those that are about to be published.
pub record Definitions : Type 0 where
  pub agents : List AgentDefinition
  pub workflows : List WorkflowDefinition
  pub pending_agent : Option AgentDefinition
  pub pending_workflow : Option WorkflowDefinition

abbrev pub pending_first {ℓ} : {A : Type ℓ} → (A → Bool) → Option A → List A → Option A
pending_first test none stored = find? test stored
pending_first test (some a) stored = if test a then some a else find? test stored

abbrev pub workflows_of : List Tool → List Node
workflows_of [] = []
workflows_of (workflow_tool id ∷ tools) = workflow id ∷ workflows_of tools
workflows_of (other_tool ∷ tools) = workflows_of tools

abbrev pub agents_of : List Step → List Node
agents_of [] = []
agents_of (invoke_agent id ∷ steps) = agent id ∷ agents_of steps
agents_of (other_step ∷ steps) = agents_of steps

abbrev pub tools_nodes : Option AgentDefinition → List Node
tools_nodes none = []
tools_nodes (some a) = workflows_of a.tools

abbrev pub steps_nodes : Option WorkflowDefinition → List Node
steps_nodes none = []
steps_nodes (some w) = agents_of w.steps

unfoldable pub neighbors : Definitions → Node → List Node
neighbors ds (agent id) =
    tools_nodes (pending_first (λ a. str_eq a.id id) ds.pending_agent ds.agents)
neighbors ds (workflow id) =
    steps_nodes (pending_first (λ w. str_eq w.id id) ds.pending_workflow ds.workflows)

-- The cycle found, or the nodes done by then.
pub data Search : Type 0 where
  found : List Node → Search
  clear : List Node → Search
  exhausted : Search

abbrev pub and_clear : Search → (List Node → Search) → Search
and_clear (clear done) k = k done
and_clear (found path) k = found path
and_clear exhausted k = exhausted

abbrev pub search_all : (List Node → Node → Search) → List Node → List Node → Search
search_all go done [] = clear done
search_all go done (n ∷ ns) = and_clear (go done n) (λ done'. search_all go done' ns)

-- `visiting.slice(visiting.indexOf(key))`
unfoldable pub from_node : Node → List Node → List Node
from_node n [] = []
from_node n (m ∷ ms) = if same_node n m then m ∷ ms else from_node n ms

module _ (next : Node → List Node) where
  unfoldable pub dfs : ℕ → List Node → List Node → Node → Search
  unfolding from_node
  dfs zero visiting done node = exhausted
  dfs (suc f) visiting done node =
      if member node visiting
      then found (from_node node visiting ++ node ∷ [])
      else if member node done
      then clear done
      else and_clear (search_all (dfs f (visiting ++ node ∷ [])) done (next node))
          (λ done'. clear (node ∷ done'))

abbrev pub agent_node : Option AgentDefinition → List Node
agent_node none = []
agent_node (some a) = agent a.id ∷ []

abbrev pub workflow_node : Option WorkflowDefinition → List Node
workflow_node none = []
workflow_node (some w) = workflow w.id ∷ []

-- All that has a definition.
abbrev pub defined : Definitions → List Node
defined ds =
    (agent_node ds.pending_agent ++ map (λ a. agent a.id) ds.agents)
    ++ (workflow_node ds.pending_workflow ++ map (λ w. workflow w.id) ds.workflows)

unfoldable pub detect_static_cycle : Definitions → Node → Search
unfolding dfs neighbors
detect_static_cycle ds start = dfs (neighbors ds) (suc (length (defined ds))) [] [] start
