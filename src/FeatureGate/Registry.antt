-- ===== src/FeatureGate/Registry.antt =====
-- AgentCore's own registry of features, and what a resolved set allows
-- (apps/agentcore/src/features/registry.ts). The walk over what a feature requires runs on fuel, one
-- more than the number of features that are registered.
use Prim.Native.String
use complete.Base.{
  ℕ, zero, suc, String, Bool, true, false, not, ◌||◌, List, [], ◌∷◌, Option, none, some,
  if◌then◌else◌, any, all, filter, map, length, is_some,
}
use complete.Features.Registry.{FeatureDef, view, block, action, feature}
use complete.Features.Cascade.{has, find_def, parents}
use complete.Features.Writes.{match_binding}
use complete.FeatureGate.{FeatureSet, every, only, FetchResult, Gate, map_get, enabled_set}

unfoldable pub agent_registry : List FeatureDef
agent_registry =
    feature "view.dash" "经营驾驶舱" view [] [] [] []
    ∷ feature "view.ontology-graph" "本体图谱" view [] [] [] []
    ∷ feature "view.risk-board" "风险看板" view [] ("risk_root_cause" ∷ "affected_orders" ∷ [])
        ("risk_timeline" ∷ "affected_orders" ∷ "bottleneck_matrix" ∷ []) ("risk" ∷ [])
    ∷ feature "view.ledger" "订单台账" view [] [] [] []
    ∷ feature "view.plan-audit" "规划体检" view [] ("plan_audit_*" ∷ []) ("plan_audit" ∷ [])
        ("plan-audit" ∷ [])
    ∷ feature "view.plan-generate" "规划建议" view [] ("plan_generate_*" ∷ []) ("plan_generate" ∷ [])
        ("plan-generate" ∷ [])
    ∷ feature "view.sop-balance" "S&OP 平衡" view [] ("sop_*" ∷ []) ("sop_balance" ∷ [])
        ("sop-balance" ∷ [])
    ∷ feature "view.project-sim" "项目推演" view [] ("capacity_feasibility" ∷ [])
        ("capacity_forecast" ∷ []) ("project-sim" ∷ [])
    ∷ feature "view.annual-scenario" "年度情景规划台" view [] [] [] []
    ∷ feature "view.quarterly-rolling" "季度滚动看板" view [] [] [] []
    ∷ feature "view.order-chain" "订单全链聚合" view [] [] [] []
    ∷ feature "view.geo-map" "基地地理视图" view [] [] [] []
    ∷ feature "view.task-dag" "任务详情·编排 DAG" block [] [] [] []
    ∷ feature "view.graph.persp.all" "图谱·全景" block ("view.ontology-graph" ∷ []) [] [] []
    ∷ feature "view.graph.persp.backbone" "图谱·主干分级" block ("view.ontology-graph" ∷ []) [] [] []
    ∷ feature "view.graph.persp.flow" "图谱·产能推演网络" block ("view.ontology-graph" ∷ []) [] [] []
    ∷ feature "view.graph.persp.source" "图谱·数据来源" block ("view.ontology-graph" ∷ []) [] [] []
    ∷ feature "view.graph.persp.solver" "图谱·求解器" block ("view.ontology-graph" ∷ []) [] [] []
    ∷ feature "view.graph.persp.mvp" "图谱·MVP" block ("view.ontology-graph" ∷ []) [] [] []
    ∷ feature "view.graph.persp.agent" "图谱·智能体网络" block ("view.ontology-graph" ∷ []) [] [] []
    ∷ feature "view.graph.persp.loop" "图谱·学习闭环" block ("view.ontology-graph" ∷ []) [] [] []
    ∷ feature "act.aop-finalize" "AOP 情景拍板" action ("view.annual-scenario" ∷ []) [] [] []
    ∷ feature "shell.query-dock" "查询对话" block [] [] [] []
    ∷ feature "qos.agent-fallback" "路径 B 兜底" block [] [] [] []
    ∷ feature "view.project-sim.whatif" "What-if 调参" block ("view.project-sim" ∷ []) [] [] []
    ∷ feature "view.risk-board.mitigation" "处置方案区" block ("view.risk-board" ∷ []) [] [] []
    ∷ feature "act.adopt-to-draft" "采纳为草稿" action [] ("adopt_mitigation" ∷ []) [] []
    ∷ feature "act.export" "导出" action [] [] [] []
    ∷ []

abbrev view_alias : List (String × String)
view_alias =
    ("dash", "view.dash")
    ∷ ("risk", "view.risk-board")
    ∷ ("risk-board", "view.risk-board")
    ∷ ("plan-audit", "view.plan-audit")
    ∷ ("plan-generate", "view.plan-generate")
    ∷ ("sop-balance", "view.sop-balance")
    ∷ ("project-sim", "view.project-sim")
    ∷ ("graph-all", "view.graph.persp.all")
    ∷ ("graph-backbone", "view.graph.persp.backbone")
    ∷ ("graph-flow", "view.graph.persp.flow")
    ∷ ("graph-source", "view.graph.persp.source")
    ∷ ("graph-solver", "view.graph.persp.solver")
    ∷ ("graph-mvp", "view.graph.persp.mvp")
    ∷ ("graph-agent", "view.graph.persp.agent")
    ∷ ("graph-loop", "view.graph.persp.loop")
    ∷ []

-- What a walk comes to, with the keys seen by then.
pub data Enabled : Type 0 where
  is_enabled : List String → Enabled
  disabled : Enabled
  exhausted : Enabled

abbrev and_enabled : Enabled → (List String → Enabled) → Enabled
and_enabled (is_enabled seen) k = k seen
and_enabled disabled k = disabled
and_enabled exhausted k = exhausted

abbrev all_enabled : (String → List String → Enabled) → List String → List String → Enabled
all_enabled go [] seen = is_enabled seen
all_enabled go (p ∷ ps) seen = and_enabled (go p seen) (all_enabled go ps)

module _ (registry : List FeatureDef) where
  -- A key that is not registered is not governed.
  unfoldable pub enabled_in : ℕ → List String → String → List String → Enabled
  unfolding parents
  enabled_in zero on key seen = exhausted
  enabled_in (suc f) on key seen =
      if not (is_some (find_def key registry))
      then is_enabled seen
      else if not (has key on)
      then disabled
      else if has key seen
      then is_enabled seen
      else all_enabled (enabled_in f on) (parents registry key) (key ∷ seen)

  abbrev holds : Enabled → Bool
  holds (is_enabled seen) = true
  holds _ = false

  unfoldable pub feature_enabled : FeatureSet → String → Bool
  unfolding enabled_in
  feature_enabled every key = true
  feature_enabled (only on) key = holds (enabled_in (suc (length registry)) on key [])

  -- Allowed unless bound to a feature that is off.
  abbrev allowed : (FeatureDef → List String) → FeatureSet → String → Bool
  allowed bindings s key =
      all (λ d. not (any (λ p. match_binding p key) (bindings d)) || feature_enabled s d.key)
        registry

  unfoldable pub intent_allowed : FeatureSet → String → Bool
  intent_allowed every key = true
  intent_allowed (only on) key = allowed (λ d. d.intents) (only on) key

  unfoldable pub solver_allowed : FeatureSet → String → Bool
  solver_allowed every key = true
  solver_allowed (only on) key = allowed (λ d. d.solver_keys) (only on) key

  abbrev view_feature : String → Option String → String
  view_feature view_key (some key) = key
  view_feature view_key none = String.◌++◌ "view." view_key

  unfoldable pub view_allowed : FeatureSet → String → Bool
  view_allowed every view_key = true
  view_allowed (only on) view_key =
      let key = view_feature view_key (map_get view_key view_alias) in
      if is_some (find_def key registry) then feature_enabled (only on) key else true

  unfoldable pub default_on_keys : List String
  default_on_keys = map (λ d. d.key) (filter (λ d. d.default_on) registry)

  -- `isEnabled` of the gate.
  unfoldable pub gate_enabled :
      (ℕ → String)
      → Option (String → Option String → FetchResult)
      → ℕ
      → String
      → String
      → (now later : ℕ) → Gate
      → Bool × Gate
  gate_enabled show fetch ttl tenant key now later g =
      let r = enabled_set show fetch ttl tenant now later g in (feature_enabled r.0 key, r.1)
