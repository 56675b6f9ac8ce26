-- ===== src/Features/Writes.antt =====
-- The writes of the configuration of features, and the checks by bindings (apps/datacore/src/features.ts,
-- `FeatureService`). The text of a version in the id of an audit record is a parameter.
use Prim.Native.String
use complete.Base.{
  ℕ, ◌+◌, String, code, ◌==◌, Bool, true, false, not, ◌&&◌, ◌||◌, List, [], ◌∷◌, Option, none, some,
  if◌then◌else◌, str_eq, any, all, filter, map, max,
}
use complete.Store.{put, list, remove}
use complete.Actions.Drafts.{AuthCtx}
use complete.Features.Registry.{FeatureDef}
use complete.Features.Cascade.{has}
use complete.Features.Service.{
  Overrides, FeatureConfig, config_entity, FeatureAudit, audit_entity, DynamicFeature,
  dynamic_entity, World, config_id, config_of, nonempty, is_registered, resolve,
}

pub data FeatureError : Type 0 where
  feature_not_found : FeatureError
  unknown_key : String → FeatureError
  role_cannot_exceed_tenant : String → FeatureError

pub data Result (A : Type 0) : Type 0 where
  value : A → Result A
  error : FeatureError → Result A

-- `o[k]`, `o[k] = v` and `delete o[k]`
unfoldable pub lookup : String → Overrides → Option Bool
lookup k [] = none
lookup k ((l, v) ∷ os) = if str_eq l k then some v else lookup k os

unfoldable pub set_override : String → Bool → Overrides → Overrides
set_override k v [] = (k, v) ∷ []
set_override k v ((l, u) ∷ os) = if str_eq l k then (k, v) ∷ os else (l, u) ∷ set_override k v os

unfoldable pub delete_override : String → Overrides → Overrides
delete_override k [] = []
delete_override k ((l, v) ∷ os) =
    let rest = delete_override k os in if str_eq l k then rest else (l, v) ∷ rest

-- A key that is patched to nothing is deleted.
unfoldable pub merge : List (String × Option Bool) → Overrides → Overrides
merge [] os = os
merge ((k, some v) ∷ patch) os = merge patch (set_override k v os)
merge ((k, none) ∷ patch) os = merge patch (delete_override k os)

unfoldable pub highest_version : List FeatureConfig → ℕ
highest_version [] = 0
highest_version (c ∷ cs) = max c.config_version (highest_version cs)

abbrev overrides_of : Option FeatureConfig → Overrides
overrides_of none = []
overrides_of (some c) = c.overrides

abbrev same_value : Option Bool → Bool → Bool
same_value none b = false
same_value (some true) b = b
same_value (some false) b = not b

-- The keys whose value is set and differs from the one before.
unfoldable pub changes : Overrides → Overrides → List (String × Option Bool × Bool)
changes before [] = []
changes before ((k, v) ∷ os) =
    let rest = changes before os in
    if same_value (lookup k before) v then rest else (k, lookup k before, v) ∷ rest

module _ (show : ℕ → String) where
  abbrev pub new_config : AuthCtx → String → Option String → Overrides → ℕ → World → FeatureConfig
  new_config ctx tenant role overrides now w = record {
    id = config_id tenant role;
    tenant_id = tenant;
    role = role;
    overrides = overrides;
    config_version = highest_version (list tenant (λ c. true) w.configs) + 1;
    updated_by = ctx.user_id;
    updated_at = now;
  }

  abbrev new_audit : FeatureConfig → Overrides → FeatureAudit
  new_audit c before = record {
    id = String.◌++◌ "faud_" (String.◌++◌ c.tenant_id (String.◌++◌ "_" (show c.config_version)));
    tenant_id = c.tenant_id;
    role = c.role;
    diff = changes before c.overrides;
    config_version = c.config_version;
    updated_by = c.updated_by;
    updated_at = c.updated_at;
  }

  -- `saveConfig`; a role with an empty name is the tenant.
  unfoldable pub save_config :
      AuthCtx → String → Option String → Overrides → ℕ → World → FeatureConfig × World
  save_config ctx tenant role overrides now w =
      let before = overrides_of (config_of tenant (nonempty role) w) in
      let rec = record (new_config ctx tenant role overrides now w) {
        id = config_id tenant (nonempty role);
      } in
      (rec, record w { configs = put rec w.configs; audits = put (new_audit rec before) w.audits })

  unfoldable pub merge_tenant_override :
      AuthCtx → String → List (String × Option Bool) → ℕ → World → FeatureConfig × World
  merge_tenant_override ctx tenant patch now w =
      save_config ctx tenant none (merge patch (overrides_of (config_of tenant none w))) now w

  module _ (registry : List FeatureDef) where
    abbrev dynamic_id : String → String → String
    dynamic_id tenant key = String.◌++◌ "dynf_" (String.◌++◌ tenant (String.◌++◌ "_" key))

    -- A view that is built in has its feature already.
    unfoldable pub register_view_feature : AuthCtx → String → String → ℕ → World → String × World
    register_view_feature ctx view_key name now w =
        let key = String.◌++◌ "view." view_key in
        let d : DynamicFeature = record {
          id = dynamic_id ctx.tenant_id key;
          tenant_id = ctx.tenant_id;
          key = key;
          name = name;
          default_on = true;
          created_at = now;
        } in
        let w' = record w { dynamics = put d w.dynamics } in
        if is_registered registry key
        then (key, w)
        else (key, (merge_tenant_override ctx ctx.tenant_id ((key, some true) ∷ []) now w').1)

    unfoldable pub unregister_view_feature : AuthCtx → String → ℕ → World → World
    unregister_view_feature ctx view_key now w =
        let key = String.◌++◌ "view." view_key in
        let w' = record w {
          dynamics = remove ctx.tenant_id (dynamic_id ctx.tenant_id key) w.dynamics;
        } in
        if is_registered registry key
        then w
        else (merge_tenant_override ctx ctx.tenant_id ((key, none) ∷ []) now w').1

    -- The first key that neither registry has.
    unfoldable pub validate_keys : String → Overrides → World → Option FeatureError
    validate_keys tenant [] w = none
    validate_keys tenant ((k, v) ∷ os) w =
        let rest = validate_keys tenant os w in
        if is_registered registry k || has k (map (λ d. d.key) (list tenant (λ d. true) w.dynamics))
        then rest
        else some (unknown_key k)

    unfoldable pub put_tenant_config :
        AuthCtx → String → Overrides → ℕ → World → Result FeatureConfig × World
    put_tenant_config ctx tenant overrides now w = elim (validate_keys tenant overrides w) [
      | some e ↦ (error e, w)
      | none ↦ let r = save_config ctx tenant none overrides now w in (value r.0, r.1)
    ]

    -- The first key that a role would turn on beyond the tenant's set.
    unfoldable pub exceeding : List String → Overrides → Option FeatureError
    exceeding on [] = none
    exceeding on ((k, v) ∷ os) =
        let rest = exceeding on os in
        if v && not (has k on) then some (role_cannot_exceed_tenant k) else rest

    unfoldable pub put_role_config :
        AuthCtx → String → String → Overrides → ℕ → World → Result FeatureConfig × World
    put_role_config ctx tenant role overrides now w = elim (validate_keys tenant overrides w) [
      | some e ↦ (error e, w)
      | none ↦ elim (exceeding (resolve registry tenant none w).on overrides) [
        | some e ↦ (error e, w)
        | none ↦ let r = save_config ctx tenant (some role) overrides now w in (value r.0, r.1)
      ]
    ]

pub data BindingKind : Type 0 where
  solver_keys api_tags intents : BindingKind

abbrev pub bindings_of : BindingKind → FeatureDef → List String
bindings_of solver_keys d = d.solver_keys
bindings_of api_tags d = d.api_tags
bindings_of intents d = d.intents

-- `matchBinding`, whose pattern may end in `*`, one character after another.
unfoldable pub match_binding : String → String → Bool
match_binding String.[] v = str_eq v ""
match_binding (String.◌∷◌ c String.[]) v = (code c == b'*') || str_eq v (String.◌∷◌ c "")
match_binding (String.◌∷◌ c (String.◌∷◌ d p)) String.[] = false
match_binding (String.◌∷◌ c (String.◌∷◌ d p)) (String.◌∷◌ e v) =
    let rest = match_binding (String.◌∷◌ d p) v in (code c == code e) && rest

abbrev pub is_bound : BindingKind → String → FeatureDef → Bool
is_bound kind v d = any (λ b. match_binding b v) (bindings_of kind d)

-- None where it passes; what is bound to no feature is not controlled.
unfoldable pub require_by_binding :
    List FeatureDef → String → BindingKind → String → World → Option FeatureError
require_by_binding registry tenant kind v w =
    let bound = filter (is_bound kind v) registry in
    if all (λ d. has d.key (resolve registry tenant none w).on) bound
    then none
    else some feature_not_found
