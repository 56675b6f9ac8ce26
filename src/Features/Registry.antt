-- ===== src/Features/Registry.antt =====
-- The registry of features (apps/datacore/src/features.ts, `FEATURE_REGISTRY`).
use complete.Base.{String, Bool, true, List, [], ◌∷◌}

pub data Level : Type 0 where
  view block action : Level

-- An absent list of requirements or bindings is empty.
pub record FeatureDef : Type 0 where
  pub key : String
  pub name : String
  pub level : Level
  pub default_on : Bool
  pub requires : List String
  pub intents : List String
  pub solver_keys : List String
  pub api_tags : List String

abbrev pub feature :
    String → String → Level → List String → List String → List String → List String → FeatureDef
feature key name level requires intents solver_keys api_tags = record {
  key = key;
  name = name;
  level = level;
  default_on = true;
  requires = requires;
  intents = intents;
  solver_keys = solver_keys;
  api_tags = api_tags;
}

unfoldable pub feature_registry : List FeatureDef
feature_registry =
    feature "view.dash" "驾驶舱" view [] [] [] ("dash" ∷ [])
    ∷ feature "view.ontology-graph" "本体图谱" view [] [] [] []
    ∷ feature "view.risk-board" "风险推演看板" view [] ("risk_*" ∷ []) ("risk_timeline" ∷ [])
        ("risk-board" ∷ [])
    ∷ feature "view.ledger" "订单台账" view [] [] [] []
    ∷ feature "view.plan-audit" "规划体检" view [] ("plan_audit_*" ∷ []) ("plan_audit" ∷ [])
        ("plan-audit" ∷ [])
    ∷ feature "view.plan-generate" "规划建议" view [] ("plan_generate_*" ∷ []) ("plan_generate" ∷ [])
        ("plan-generate" ∷ [])
    ∷ feature "view.sop-balance" "S&OP 月度平衡" view [] ("sop_*" ∷ []) ("sop_balance" ∷ [])
        ("sop" ∷ [])
    ∷ feature "view.project-sim" "项目沙盘推演" view [] ("capacity_*" ∷ []) ("capacity_forecast" ∷ []) []
    ∷ feature "view.annual-scenario" "年度情景规划台" view [] [] ("capex_scenario" ∷ []) ("plan-aop" ∷ [])
    ∷ feature "view.quarterly-rolling" "季度滚动看板" view [] [] [] ("plan-quarterly" ∷ [])
    ∷ feature "view.order-chain" "订单全链聚合" view [] [] [] []
    ∷ feature "view.geo-map" "基地地理视图" view [] [] [] []
    ∷ feature "view.review" "运营回顾" view [] [] [] ("history" ∷ [])
    ∷ feature "shell.query-dock" "查询对话坞" block [] [] [] []
    ∷ feature "qos.agent-fallback" "Agent 兜底（路径 B）" block [] [] [] []
    ∷ feature "view.project-sim.whatif" "What-if 调参" block ("view.project-sim" ∷ []) [] [] []
    ∷ feature "view.risk-board.mitigation" "处置方案区" block ("view.risk-board" ∷ []) [] [] []
    ∷ feature "view.dash.widget.capacity" "驾驶舱·产能卡" block ("view.dash" ∷ []) [] [] []
    ∷ feature "view.dash.widget.risk" "驾驶舱·风险卡" block ("view.dash" ∷ []) [] [] []
    ∷ feature "view.task-dag" "任务详情·编排 DAG" block [] [] [] []
    ∷ feature "view.graph.persp.all" "图谱·全景" block ("view.ontology-graph" ∷ []) [] [] []
    ∷ feature "view.graph.persp.backbone" "图谱·主干分级" block ("view.ontology-graph" ∷ []) [] [] []
    ∷ feature "view.graph.persp.flow" "图谱·产能推演网络" block ("view.ontology-graph" ∷ []) [] [] []
    ∷ feature "view.graph.persp.source" "图谱·数据来源" block ("view.ontology-graph" ∷ []) [] [] []
    ∷ feature "view.graph.persp.solver" "图谱·求解器" block ("view.ontology-graph" ∷ []) [] [] []
    ∷ feature "view.graph.persp.mvp" "图谱·MVP" block ("view.ontology-graph" ∷ []) [] [] []
    ∷ feature "view.graph.persp.agent" "图谱·智能体网络" block ("view.ontology-graph" ∷ []) [] [] []
    ∷ feature "view.graph.persp.loop" "图谱·学习闭环" block ("view.ontology-graph" ∷ []) [] [] []
    ∷ feature "domain.factory" "域·工厂" block [] [] [] []
    ∷ feature "domain.product" "域·产品" block [] [] [] []
    ∷ feature "domain.process" "域·工艺" block [] [] [] []
    ∷ feature "domain.equip" "域·设备" block [] [] [] []
    ∷ feature "domain.quality" "域·质量" block [] [] [] []
    ∷ feature "domain.capacity" "域·产能" block [] [] [] []
    ∷ feature "domain.forecast" "域·预测" block [] [] [] []
    ∷ feature "domain.people" "域·人员" block [] [] [] []
    ∷ feature "domain.plan" "域·计划" block [] [] [] []
    ∷ feature "domain.finance" "域·财务" block [] [] [] []
    ∷ feature "domain.material" "域·物料" block [] [] [] []
    ∷ feature "domain.sales" "域·销售" block [] [] [] []
    ∷ feature "domain.external" "域·外部" block [] [] [] []
    ∷ feature "domain.decision" "域·决策" block [] [] [] []
    ∷ feature "domain.unassigned" "域·未归域" block [] [] [] []
    ∷ feature "act.plan-audit.apply-fix" "体检一键修正" action ("view.plan-audit" ∷ []) [] [] []
    ∷ feature "act.adopt-to-draft" "采纳为草稿" action [] [] [] []
    ∷ feature "act.export" "导出" action [] [] [] []
    ∷ feature "act.aop-finalize" "AOP 情景拍板" action ("view.annual-scenario" ∷ []) [] [] []
    ∷ []
