-- ===== src/RuleEngine/Evaluate.antt =====
-- The evaluation of rules (apps/datacore/src/rules.ts, `evaluate`, `dryRun`, `get` and `list` of
-- `RulesService`). An expression states what violates the rule.
use Prim.Native.String
use complete.Base.{
  ℕ, String, Bool, true, false, not, ◌&&◌, ◌||◌, List, [], ◌∷◌, Option, none, some, if◌then◌else◌,
  str_eq, any, filter,
}
use complete.Store.{get, list}
use complete.Json.{Fields}
use complete.Rules.{Numbers, DslError}
use complete.Rules.Parser.{ok, failed, out_of_fuel}
use complete.Rules.Lexer.{parse_expression, trim}
use complete.Rules.Evaluation.{EvalContext}
use complete.Rules.Values.{Platform, evaluate_expression}
use complete.RuleEngine.{
  Rule, rule_entity, Severity, block, RuleStatus, retired, published, draft, is_published, Result,
  value, error, not_found,
}

pub data RuleIds : Type 0 where
  all_applicable : RuleIds
  named : List String → RuleIds

pub record RuleVerdict : Type 0 where
  pub rule_id : String
  pub passed : Bool
  -- BLOCK, or else WARN
  pub is_block : Bool
  pub explanation : String
  pub rule_version : ℕ

abbrev pub is_retired : RuleStatus → Bool
is_retired retired = true
is_retired _ = false

abbrev pub is_blocking : Severity → Bool
is_blocking block = true
is_blocking _ = false

abbrev same_status : RuleStatus → RuleStatus → Bool
same_status draft draft = true
same_status published published = true
same_status retired retired = true
same_status _ _ = false

abbrev pub is_named : List String → Rule → Bool
is_named ids r = (any (str_eq r.id) ids || any (str_eq r.key) ids) && not (is_retired r.status)

-- `list`; an absent status lists all.
unfoldable pub list_rules : String → Option RuleStatus → List Rule → List Rule
list_rules tenant none rules = list tenant (λ r. true) rules
list_rules tenant (some status) rules = list tenant (λ r. same_status r.status status) rules

unfoldable pub get_rule : String → String → List Rule → Result Rule
get_rule tenant id rules = elim (get tenant id rules) [ none ↦ error not_found | some r ↦ value r ]

abbrev pub selected : String → RuleIds → List Rule → List Rule
selected tenant all_applicable rules = list tenant (λ r. is_published r.status) rules
selected tenant (named ids) rules = filter (is_named ids) (list tenant (λ r. true) rules)

abbrev pub is_blank : String → Bool
is_blank s = str_eq (trim s) ""

abbrev pub is_true : Option Bool → Bool
is_true none = false
is_true (some b) = b

abbrev remark : Rule → Option Bool → String
remark r (some true) = String.◌++◌ ": 违反约束（" (String.◌++◌ r.expression "）")
remark r (some false) = ": 通过"
remark r none = ": 表达式不可求值，按通过处理"

-- What `dryRun` answers, of a text that parses or does not.
pub data DryRun : Type 0 where
  evaluated : (violated : Bool) → DryRun
  refused : DslError → (position : ℕ) → DryRun
  not_evaluable : DryRun

abbrev pub dry_value : Option Bool → DryRun
dry_value none = not_evaluable
dry_value (some b) = evaluated b

module _ {N : Type 0} ⦃numbers : Numbers N⦄ (platform : Platform N) where
  abbrev pub payload_context : Fields N → EvalContext N
  payload_context payload = record { payload = payload; user = none; sustain = none }

  -- The value of a rule's expression, or none where it throws.
  abbrev pub violation : Fields N → Rule → Option Bool
  violation payload r = evaluate_expression platform r.expression (payload_context payload)

  abbrev pub verdict : Fields N → Rule → RuleVerdict
  verdict payload r = record {
    rule_id = r.key;
    passed = not (is_true (violation payload r));
    is_block = is_blocking r.severity;
    explanation =
        String.◌++◌ r.key (String.◌++◌ " " (String.◌++◌ r.name (remark r (violation payload r))));
    rule_version = r.version;
  }

  -- A rule with a blank expression is passed over.
  unfoldable pub verdicts : Fields N → List Rule → List RuleVerdict
  verdicts payload [] = []
  verdicts payload (r ∷ rs) =
      let rest = verdicts payload rs in
      if is_blank r.expression then rest else verdict payload r ∷ rest

  unfoldable pub evaluate : String → RuleIds → Fields N → List Rule → List RuleVerdict
  evaluate tenant ids payload rules = verdicts payload (selected tenant ids rules)

  unfoldable pub dry_run : String → Fields N → DryRun
  dry_run expression payload = elim (parse_expression platform.number platform.upper expression) [
    | ok a ts ↦ dry_value (evaluate_expression platform expression (payload_context payload))
    | failed e p ↦ refused e p
    | out_of_fuel ↦ not_evaluable
  ]
