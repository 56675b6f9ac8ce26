-- ===== src/RuleEngine/References.antt =====
-- What refers to a rule (apps/datacore/src/rules.ts, `references` and `impact`): the references that
-- resources reported, and the action types that check the rule. Display names are left out.
use complete.Base.{
  ℕ, String, Bool, true, ◌&&◌, List, [], ◌∷◌, ◌++◌, str_eq, any, filter, length, map, if◌then◌else◌,
}
use complete.Store.{Entity, list}
use complete.RuleEngine.{Rule, World, Result, value, error, publish}
use complete.Actions.World.{ActionType, type_entity}

pub record ResourceRef : Type 0 where
  pub kind : String
  pub key : String

-- The references that one resource, the source, reported.
pub record ReportedRefs : Type 0 where
  pub id : String
  pub tenant_id : String
  pub source : ResourceRef
  pub refs : List ResourceRef

instance abbrev pub reported_entity : Entity ReportedRefs
reported_entity = record { tenant_id = λ r. r.tenant_id; id = λ r. r.id }

pub data Via : Type 0 where
  reported : Via
  check_rules : Via

pub record Reference : Type 0 where
  pub kind : String
  pub key : String
  pub via : Via

abbrev pub refers : String → ReportedRefs → Bool
refers rule_key rep = any (λ r. str_eq r.kind "rule" && str_eq r.key rule_key) rep.refs

abbrev pub checks : String → ActionType → Bool
checks rule_key type = any (λ k. str_eq k rule_key) type.check_rules

unfoldable pub references : String → String → List ReportedRefs → List ActionType → List Reference
references tenant rule_key reports types =
    map (λ rep. record { kind = rep.source.kind; key = rep.source.key; via = reported })
      (filter (refers rule_key) (list tenant (λ r. true) reports))
    ++ map (λ type. record { kind = "action-type"; key = type.key; via = check_rules })
        (filter (checks rule_key) (list tenant (λ t. true) types))

-- Every reference to a rule is to its latest version.
pub record PublishImpact : Type 0 where
  pub agents : ℕ
  pub plans : ℕ
  pub intents : ℕ
  pub refs : List ResourceRef

abbrev pub known_kinds : List String
known_kinds = "rule" ∷ "skill" ∷ "workflow" ∷ "plan" ∷ "agent" ∷ "mcp" ∷ "intent" ∷ []

-- A kind that is not known counts as a plan among the references.
abbrev pub shown_kind : String → String
shown_kind kind = if any (str_eq kind) known_kinds then kind else "plan"

abbrev pub count_kinds : List String → List Reference → ℕ
count_kinds kinds refs = length (filter (λ r. any (str_eq r.kind) kinds) refs)

unfoldable pub impact_of : List Reference → PublishImpact
impact_of refs = record {
  agents = count_kinds ("agent" ∷ []) refs;
  plans = count_kinds ("plan" ∷ "workflow" ∷ []) refs;
  intents = count_kinds ("intent" ∷ []) refs;
  refs = map (λ r. record { kind = shown_kind r.kind; key = r.key }) refs;
}

unfoldable pub impact : String → String → List ReportedRefs → List ActionType → PublishImpact
impact tenant rule_key reports types = impact_of (references tenant rule_key reports types)

abbrev with_impact :
    String
    → List ReportedRefs
    → List ActionType
    → Result (Rule × List String)
    → Result (Rule × List String × PublishImpact)
with_impact tenant reports types (value (rule, lost)) =
    value (rule, lost, impact tenant rule.key reports types)
with_impact tenant reports types (error e) = error e

-- `publish` with its answer: the rule, the warning, and the impact.
unfoldable publish_response :
    List ReportedRefs
    → List ActionType
    → String
    → String
    → World
    → Result (Rule × List String × PublishImpact) × World
publish_response reports types tenant id w =
    let r = publish tenant id w in (with_impact tenant reports types r.0, r.1)
