-- ===== src/Features/Tests.antt =====
-- The features of a small tenant (apps/datacore/src/features.ts).
use complete.Base.{
  ℕ, suc, String, true, false, [], ◌∷◌, none, some, ◌≡◌, ◌≢◌, refl, All, length, ◌<◌,
}
use complete.Store.{find_key, mem_key, list}
use complete.Actions.Drafts.{AuthCtx}
use complete.Features.Registry.{feature_registry}
use complete.Features.Cascade.{has, parents, exhausted, is_on, cascade, find_def}
use complete.Features.Search.{IsSubset, is_on_total}
use complete.Features.Service.{
  FeatureConfig, World, resolve, resolve_for_user, add_key, delete_key, add_keys, override_all,
  narrow_all, template_features, defaults, tenant_layers, layered_set,
}
use complete.Features.Writes.{save_config}
use complete.Features.Narrowing.{resolve_closed, resolve_for_user-IsSubset, save_config-version}

is_on_total_example :
    is_on feature_registry
      (suc (length {A = String} ("view.dash" ∷ [])))
      ("view.dash" ∷ [])
      "view.dash.widget.risk"
      []
    ≢ exhausted
is_on_total_example = is_on_total feature_registry ("view.dash" ∷ []) "view.dash.widget.risk"

-- A widget without its view is not effective.
cascade-risk :
    cascade feature_registry ("view.dash.widget.risk" ∷ "act.export" ∷ []) ≡ "act.export" ∷ []
unfolding cascade is_on parents find_def feature_registry
cascade-risk = refl

abbrev config : FeatureConfig
config = record {
  id = "fcfg_t";
  tenant_id = "t";
  role = none;
  overrides = ("view.dash", false) ∷ [];
  config_version = 3;
  updated_by = "admin";
  updated_at = 10;
}

-- Planners do not export.
abbrev planners : FeatureConfig
planners = record config {
  id = "fcfg_t_planner";
  role = some "planner";
  overrides = ("act.export", false) ∷ [];
  config_version = 4;
}

abbrev world : World
world = record {
  tenants = [];
  templates = [];
  dynamics = [];
  configs = config ∷ planners ∷ [];
  audits = [];
}

abbrev alice : AuthCtx
alice = record { tenant_id = "t"; user_id = "alice"; roles = "planner:north" ∷ [] }

resolve_for_user-IsSubset_example :
    IsSubset
      (resolve_for_user feature_registry alice world).on
      (resolve feature_registry "t" none world).on
resolve_for_user-IsSubset_example = resolve_for_user-IsSubset feature_registry alice world

effective :
    has "view.graph.persp.all" (resolve feature_registry "t" (some "planner") world).on ≡ true
unfolding resolve cascade is_on parents layered_set find_key mem_key narrow_all delete_key
    tenant_layers override_all template_features defaults add_keys list feature_registry add_key
    find_def
effective = refl

resolve_closed_example :
    All
      (λ p. has p (resolve feature_registry "t" (some "planner") world).on ≡ true)
      (parents feature_registry "view.graph.persp.all")
resolve_closed_example =
    resolve_closed feature_registry "t" (some "planner") world "view.graph.persp.all" effective

abbrev no_text : ℕ → String
no_text n = ""

save_config-version_example :
    All
      (λ c.
        c.tenant_id ≡ "t"
        → c.config_version < (save_config no_text alice "t" none [] 20 world).0.config_version)
      (config ∷ planners ∷ [])
save_config-version_example = save_config-version no_text alice "t" none [] 20 world
