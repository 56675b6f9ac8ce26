-- ===== src/Features/Service.antt =====
-- The configuration of features (apps/datacore/src/features.ts, `FeatureService`): the layers, from the
-- defaults of the platform over the industry's template and the tenant's overrides to the narrowing by
-- a role, and the writes. The order of the resulting list, which the source sorts, is left open.
use Prim.Native.String
use complete.Base.{
  ℕ, String, Bool, true, not, List, [], ◌∷◌, ◌++◌, Option, none, some, if◌then◌else◌, str_eq,
  filter, map, max, is_some,
}
use complete.Store.{Entity, get, list}
use complete.Actions.Drafts.{AuthCtx, base_role}
use complete.Features.Registry.{FeatureDef}
use complete.Features.Cascade.{has, find_def, cascade}

abbrev pub Overrides : Type 0
Overrides = List (String × Bool)

pub record FeatureConfig : Type 0 where
  pub id : String
  pub tenant_id : String
  pub role : Option String
  pub overrides : Overrides
  pub config_version : ℕ
  pub updated_by : String
  pub updated_at : ℕ

instance abbrev pub config_entity : Entity FeatureConfig
config_entity = record { tenant_id = λ c. c.tenant_id; id = λ c. c.id }

-- A change of one key: what it was, if it was set, and what it is.
pub record FeatureAudit : Type 0 where
  pub id : String
  pub tenant_id : String
  pub role : Option String
  pub diff : List (String × Option Bool × Bool)
  pub config_version : ℕ
  pub updated_by : String
  pub updated_at : ℕ

instance abbrev pub audit_entity : Entity FeatureAudit
audit_entity = record { tenant_id = λ a. a.tenant_id; id = λ a. a.id }

pub record DynamicFeature : Type 0 where
  pub id : String
  pub tenant_id : String
  pub key : String
  pub name : String
  pub default_on : Bool
  pub created_at : ℕ

instance abbrev pub dynamic_entity : Entity DynamicFeature
dynamic_entity = record { tenant_id = λ d. d.tenant_id; id = λ d. d.id }

pub record Tenant : Type 0 where
  pub id : String
  pub tenant_id : String
  pub industry : Option String

instance abbrev pub tenant_entity : Entity Tenant
tenant_entity = record { tenant_id = λ t. t.tenant_id; id = λ t. t.id }

pub record IndustryTemplate : Type 0 where
  pub id : String
  pub tenant_id : String
  pub industry_key : String
  pub features : Option (List String)

instance abbrev pub template_entity : Entity IndustryTemplate
template_entity = record { tenant_id = λ t. t.tenant_id; id = λ t. t.id }

pub record World : Type 0 where
  pub tenants : List Tenant
  pub templates : List IndustryTemplate
  pub dynamics : List DynamicFeature
  pub configs : List FeatureConfig
  pub audits : List FeatureAudit

-- `Set.add` and `Set.delete`
unfoldable pub add_key : String → List String → List String
add_key k on = if has k on then on else on ++ k ∷ []

unfoldable pub delete_key : String → List String → List String
delete_key k on = filter (λ l. not (str_eq l k)) on

unfoldable pub add_keys : List String → List String → List String
add_keys [] on = on
add_keys (k ∷ ks) on = add_keys ks (add_key k on)

unfoldable pub override_all : Overrides → List String → List String
override_all [] on = on
override_all ((k, v) ∷ os) on = override_all os (if v then add_key k on else delete_key k on)

-- A role only turns features off.
unfoldable pub narrow_all : Overrides → List String → List String
narrow_all [] on = on
narrow_all ((k, v) ∷ os) on = narrow_all os (if v then on else delete_key k on)

-- An empty text counts as none.
abbrev pub nonempty : Option String → Option String
nonempty none = none
nonempty (some s) = if str_eq s "" then none else some s

abbrev pub config_id : String → Option String → String
config_id tenant none = String.◌++◌ "fcfg_" tenant
config_id tenant (some role) = String.◌++◌ "fcfg_" (String.◌++◌ tenant (String.◌++◌ "_" role))

abbrev pub config_of : String → Option String → World → Option FeatureConfig
config_of tenant role w = get tenant (config_id tenant role) w.configs

abbrev first_features : List IndustryTemplate → Option (List String)
first_features [] = none
first_features (t ∷ ts) = t.features

abbrev industry_of : Option Tenant → Option String
industry_of none = none
industry_of (some t) = nonempty t.industry

pub record Layers : Type 0 where
  pub on : List String
  pub config_version : ℕ

abbrev overridden : Option FeatureConfig → Layers → Layers
overridden none l = l
overridden (some c) l = record {
  on = override_all c.overrides l.on;
  config_version = c.config_version;
}

abbrev pub narrowed : Option FeatureConfig → Layers → Layers
narrowed none l = l
narrowed (some c) l = record {
  on = narrow_all c.overrides l.on;
  config_version = max l.config_version c.config_version;
}

abbrev pub narrowed_by : String → World → Option String → Layers → Layers
narrowed_by tenant w none l = l
narrowed_by tenant w (some role) l = narrowed (config_of tenant (some role) w) l

module _ (registry : List FeatureDef) where
  abbrev pub is_registered : String → Bool
  is_registered k = is_some (find_def k registry)

  unfoldable pub template_features : String → World → Option (List String)
  template_features tenant w = elim (industry_of (get tenant tenant w.tenants)) [
    | none ↦ none
    | some industry ↦
        if str_eq industry "battery-manufacturing"
        then some (map (λ d. d.key) registry)
        else first_features (list tenant (λ t. str_eq t.industry_key industry) w.templates)
  ]

  abbrev templated : Option (List String) → List String → List String
  templated none on = on
  templated (some ks) on = add_keys (filter is_registered ks) (filter (λ k. has k ks) on)

  unfoldable pub defaults : String → World → List String
  defaults tenant w =
      add_keys (map (λ d. d.key) (filter (λ d. d.default_on) (list tenant (λ d. true) w.dynamics)))
        (add_keys (map (λ d. d.key) (filter (λ d. d.default_on) registry)) [])

  -- The layers below the role.
  unfoldable pub tenant_layers : String → World → Layers
  tenant_layers tenant w = overridden (config_of tenant none w) (record {
    on = templated (template_features tenant w) (defaults tenant w);
    config_version = 0;
  })

  unfoldable pub layered_set : String → Option String → World → Layers
  layered_set tenant role w = narrowed_by tenant w (nonempty role) (tenant_layers tenant w)

  -- The effective features.
  unfoldable pub resolve : String → Option String → World → Layers
  resolve tenant role w =
      let l = layered_set tenant role w in record l { on = cascade registry l.on }

  unfoldable pub union : String → List String → World → Layers → Layers
  union tenant [] w acc = acc
  union tenant (role ∷ roles) w acc =
      let r = resolve tenant (some role) w in
      union tenant roles w (record {
        on = add_keys r.on acc.on;
        config_version = max acc.config_version r.config_version;
      })

  abbrev pub resolve_roles : String → World → List String → Layers
  resolve_roles tenant w [] = resolve tenant none w
  resolve_roles tenant w (role ∷ roles) =
      union tenant (role ∷ roles) w (record { on = []; config_version = 0 })

  unfoldable pub resolve_for_user : AuthCtx → World → Layers
  resolve_for_user ctx w = resolve_roles ctx.tenant_id w (add_keys (map base_role ctx.roles) [])

  unfoldable pub enabled : String → String → World → Bool
  enabled tenant key w = has key (resolve tenant none w).on
