-- ===== src/RuleEngine.antt =====
-- The rule library (apps/datacore/src/rules.ts, `RulesService`; `Rule` is in apps/datacore/src/domain.ts):
-- its state and the operations that write it. The new id of a rule is an argument. What the outbox is
-- given is kept as a list of events, in order. `Evaluate` has the evaluation, `References` the reverse
-- references; the other children have what holds of them.
pub mod Evaluate
pub mod Blocking
pub mod Submission
pub mod References
pub mod Contents
pub mod Versions
pub mod Single
pub mod Published
mod Tests
use complete.Base.{
  ℕ, ◌+◌, String, Bool, true, false, not, ◌&&◌, List, [], ◌∷◌, ◌++◌, Option, none, some,
  if◌then◌else◌, str_eq, ltb, max, any, filter, is_some,
}
use complete.Store.{Entity, get, put, list}
use complete.Rules.{DslError}
use complete.Rules.Parser.{Parsed, ok, failed, out_of_fuel}

pub data Severity : Type 0 where
  block warn info : Severity

pub data RuleStatus : Type 0 where
  draft published retired : RuleStatus

pub data RuleOrigin : Type 0 where
  document : (doc_id : String) (start end : ℕ) (extract_job_id : String) → RuleOrigin
  manual : RuleOrigin
  synthetic : RuleOrigin

pub record Rule : Type 0 where
  pub id : String
  pub tenant_id : String
  pub key : String
  pub name : String
  pub description : Option String
  pub expression : String
  pub scope_object_types : List String
  pub severity : Severity
  pub origin : RuleOrigin
  pub version : ℕ
  pub status : RuleStatus

instance abbrev pub rule_entity : Entity Rule
rule_entity = record { tenant_id = λ r. r.tenant_id; id = λ r. r.id }

abbrev pub is_published : RuleStatus → Bool
is_published published = true
is_published _ = false

abbrev pub is_draft : RuleStatus → Bool
is_draft draft = true
is_draft _ = false

-- The event `rules.updated`.
pub record RulesUpdated : Type 0 where
  pub tenant_id : String
  pub rule_key : String
  pub version : ℕ
  pub retired : Bool

pub record World : Type 0 where
  pub rules : List Rule
  pub sent : List RulesUpdated

pub data RuleError : Type 0 where
  not_found : RuleError
  immutable_version : RuleError
  invalid_expression : DslError → ℕ → RuleError
  unfinished : RuleError

pub data Result {ℓ} (A : Type ℓ) : Type ℓ where
  value : A → Result A
  error : RuleError → Result A

-- The input of `create`; an absent origin or status has its default.
pub record NewRule : Type 0 where
  pub key : String
  pub name : String
  pub description : Option String
  pub expression : String
  pub scope_object_types : List String
  pub severity : Severity
  pub origin : Option RuleOrigin
  pub status : Option RuleStatus

-- `Math.max(...)` of versions
unfoldable pub highest : List Rule → ℕ
highest [] = 0
highest (r ∷ rs) = max r.version (highest rs)

abbrev pub next_version : List Rule → ℕ
next_version [] = 1
next_version (r ∷ rs) = highest (r ∷ rs) + 1

abbrev pub or_default {ℓ} : {A : Type ℓ} → A → Option A → A
or_default a none = a
or_default a (some b) = b

abbrev pub retire_rule : Rule → Rule
retire_rule r = record r { status = retired }

-- The loop that writes each rule of a list back as retired.
unfoldable pub retire_all : List Rule → List Rule → List Rule
retire_all [] s = s
retire_all (old ∷ more) s = retire_all more (put (retire_rule old) s)

abbrev pub emit : String → Rule → Bool → World → World
emit tenant r is_retired w = record w {
  sent =
      w.sent
      ++ record { tenant_id = tenant; rule_key = r.key; version = r.version; retired = is_retired }
        ∷ [];
}

abbrev pub new_rule : String → String → NewRule → ℕ → Rule
new_rule tenant id input version = record {
  id = id;
  tenant_id = tenant;
  key = input.key;
  name = input.name;
  description = input.description;
  expression = input.expression;
  scope_object_types = input.scope_object_types;
  severity = input.severity;
  origin = or_default manual input.origin;
  version = version;
  status = or_default draft input.status;
}

abbrev pub versions_of : String → String → List Rule → List Rule
versions_of tenant key s = list tenant (λ r. str_eq r.key key) s

unfoldable pub create : String → String → NewRule → World → Rule × World
create tenant id input w =
    let existing = versions_of tenant input.key w.rules in
    let rule = new_rule tenant id input (next_version existing) in
    let is_live = is_published rule.status in
    let kept =
      if is_live
      then retire_all (filter (λ r. is_published r.status) existing) w.rules
      else w.rules in
    let written = record w { rules = put rule kept } in
    (rule, if is_live then emit tenant rule false written else written)

-- The other published versions of a rule.
abbrev pub siblings : String → Rule → List Rule → List Rule
siblings tenant rule s =
    list tenant (λ r. str_eq r.key rule.key && is_published r.status && not (str_eq r.id rule.id)) s

-- The first of the rules of the highest version.
unfoldable pub newest : List Rule → Option Rule
newest [] = none
newest (r ∷ rs) = elim (newest rs) [
  | none ↦ some r
  | some n ↦ if ltb r.version n.version then some n else some r
]

-- The object types that the scope loses against the version before: the warning, unless empty.
abbrev pub narrowed : Rule → Option Rule → List String
narrowed rule none = []
narrowed rule (some prev) =
    filter (λ t. not (any (str_eq t) rule.scope_object_types)) prev.scope_object_types

-- The rule that is published, and what its scope loses.
unfoldable pub publish : String → String → World → Result (Rule × List String) × World
publish tenant id w = elim (get tenant id w.rules) [
  | none ↦ (error not_found, w)
  | some rule ↦
      let others = siblings tenant rule w.rules in
      let updated = record rule { status = published } in
      (
        value (updated, narrowed rule (newest others)),
        emit tenant updated false (record w { rules = put updated (retire_all others w.rules) }),
      )
]

pub record Patch : Type 0 where
  pub name : Option String
  pub description : Option String
  pub expression : Option String
  pub scope_object_types : Option (List String)
  pub severity : Option Severity

abbrev pub patched : Rule → Patch → Rule
patched r p = record r {
  name = or_default r.name p.name;
  description = elim p.description [ none ↦ r.description | some d ↦ some d ];
  expression = or_default r.expression p.expression;
  scope_object_types = or_default r.scope_object_types p.scope_object_types;
  severity = or_default r.severity p.severity;
}

-- `assertValidExpression`, on what the parser comes to.
abbrev pub assert_valid_expression {ℓ} : {N : Type 0} {A : Type ℓ} → Parsed N A → Option RuleError
assert_valid_expression (ok a ts) = none
assert_valid_expression (failed e p) = some (invalid_expression e p)
assert_valid_expression out_of_fuel = some unfinished

abbrev check_patch {ℓ} :
    {N : Type 0} {A : Type ℓ} → (String → Parsed N A) → Option String → Option RuleError
check_patch parse none = none
check_patch parse (some e) = assert_valid_expression (parse e)

-- `parse` is `parseExpression`.
unfoldable pub update {ℓ} :
    {N : Type 0} {A : Type ℓ}
    → (String → Parsed N A)
    → String
    → String
    → Patch
    → World
    → Result Rule × World
update parse tenant id patch w = elim (get tenant id w.rules) [
  | none ↦ (error not_found, w)
  | some rule ↦
      if not (is_draft rule.status)
      then (error immutable_version, w)
      else elim (check_patch parse patch.expression) [
        | some e ↦ (error e, w)
        | none ↦ (value (patched rule patch), record w { rules = put (patched rule patch) w.rules })
      ]
]

unfoldable pub retire : String → String → World → Result Rule × World
retire tenant id w = elim (get tenant id w.rules) [
  | none ↦ (error not_found, w)
  | some rule ↦ (
    value (retire_rule rule),
    emit tenant rule true (record w { rules = put (retire_rule rule) w.rules }),
  )
]
