-- ===== src/Features/Narrowing.antt =====
-- What roles and users get of a tenant's features, and the versions of configurations
-- (apps/datacore/src/features.ts, `FeatureService`).
use complete.Base.{
  ℕ, ◌+◌, ◌≤◌, ◌<◌, String, Bool, true, false, not, ◌||◌, List, [], ◌∷◌, ◌++◌, Option, none, some,
  ◌≡◌, refl, arith, str_eq, length, map, All, All-map, max, length-filter,
}
use complete.Store.{list}
use complete.Store.Laws.{All-of_list}
use complete.Actions.Drafts.{AuthCtx, base_role}
use complete.Features.Registry.{FeatureDef}
use complete.Features.Cascade.{has, parents}
use complete.Features.Search.{IsSubset}
use complete.Features.Closed.{cascade_closed, cascade_mono, has-filter}
use complete.Features.Service.{
  Overrides, FeatureConfig, config_entity, World, Layers, add_key, add_keys, delete_key, narrow_all,
  narrowed, narrowed_by, resolve_roles, nonempty, config_of, tenant_layers, layered_set, resolve,
  union, resolve_for_user,
}
use complete.Features.Writes.{highest_version, save_config}

-- Narrowing leaves a part.
IsPart : List String → List String → Type 0
IsPart ks ls = IsSubset ks ls × (length ks ≤ length ls)

delete_key-IsPart : (k : String) (on : List String) → IsPart (delete_key k on) on
unfolding delete_key IsPart
delete_key-IsPart k on = (
  (λ l e. (has-filter (λ x. not (str_eq x k)) l on e).0),
  length-filter (λ x. not (str_eq x k)) on,
)

narrow_all-IsPart : (os : Overrides) (on : List String) → IsPart (narrow_all os on) on
unfolding narrow_all IsPart
narrow_all-IsPart [] on = ((λ l e. e), omega arith)
narrow_all-IsPart ((k, true) ∷ os) on = narrow_all-IsPart os on
narrow_all-IsPart ((k, false) ∷ os) on =
    let one = delete_key-IsPart k on in
    let more = narrow_all-IsPart os (delete_key k on) in
    ((λ l e. one.0 l (more.0 l e)), omega (arith, one.1, more.1))

narrowed-IsPart : (c : Option FeatureConfig) (l : Layers) → IsPart (narrowed c l).on l.on
unfolding IsPart
narrowed-IsPart none l = ((λ k e. e), omega arith)
narrowed-IsPart (some c) l = narrow_all-IsPart c.overrides l.on

has-append :
    (k l : String) (ks : List String)
    → has k (ks ++ l ∷ []) ≡ true
    → (has k ks || str_eq k l) ≡ true
has-append k l [] e = ground arith
has-append k l (m ∷ ks) e = ground (arith, has-append k l ks)

has-add_key :
    (k l : String) (on : List String)
    → has k (add_key l on) ≡ true
    → (has k on || str_eq k l) ≡ true
unfolding add_key
has-add_key k l on e = ground (arith, has-append k l on)

has-add_keys :
    (k : String) (ks on : List String)
    → has k (add_keys ks on) ≡ true
    → (has k ks || has k on) ≡ true
unfolding add_keys
has-add_keys k [] on e = e
has-add_keys k (l ∷ ks) on e =
    ground (arith, has-add_keys k ks (add_key l on) e, has-add_key k l on)

either_part :
    (a b c : Bool) → (a || b) ≡ true → (a ≡ true → c ≡ true) → (b ≡ true → c ≡ true) → c ≡ true
either_part true b c e f g = f refl
either_part false b c e f g = g e

module _ (registry : List FeatureDef) (tenant : String) (w : World) where
  narrowed_by-IsPart :
      (role : Option String) (l : Layers) → IsPart (narrowed_by tenant w role l).on l.on
  unfolding IsPart
  narrowed_by-IsPart none l = ((λ k h. h), omega arith)
  narrowed_by-IsPart (some r) l = narrowed-IsPart (config_of tenant (some r) w) l

  -- A role has no feature that its tenant has not.
  pub role_narrows :
      (role : Option String)
      → IsSubset (resolve registry tenant role w).on (resolve registry tenant none w).on
  unfolding resolve IsPart layered_set
  role_narrows role =
      let part = narrowed_by-IsPart (nonempty role) (tenant_layers registry tenant w) in
      cascade_mono registry (layered_set registry tenant role w).on
        (layered_set registry tenant none w).on part.0 part.1

  union-IsSubset :
      (roles : List String) (acc : Layers)
      → IsSubset acc.on (resolve registry tenant none w).on
      → IsSubset (union registry tenant roles w acc).on (resolve registry tenant none w).on
  unfolding union
  union-IsSubset [] acc h = h
  union-IsSubset (role ∷ roles) acc h =
      let r = resolve registry tenant (some role) w in
      union-IsSubset roles
        (record {
          on = add_keys r.on acc.on;
          config_version = max acc.config_version r.config_version;
        })
        (λ k e.
          either_part (has k r.on) (has k acc.on) (has k (resolve registry tenant none w).on)
            (has-add_keys k r.on acc.on e) (role_narrows (some role) k) (h k))

resolve_roles-IsSubset :
    (registry : List FeatureDef) (tenant : String) (w : World) (roles : List String)
    → IsSubset (resolve_roles registry tenant w roles).on (resolve registry tenant none w).on
resolve_roles-IsSubset registry tenant w [] = λ k h. h
resolve_roles-IsSubset registry tenant w (role ∷ roles) =
    union-IsSubset registry tenant w (role ∷ roles) (record { on = []; config_version = 0 })
      (λ k h. absurd (cc))

-- A user has no feature that the tenant has not, whatever the roles.
pub resolve_for_user-IsSubset :
    (registry : List FeatureDef) (ctx : AuthCtx) (w : World)
    → IsSubset (resolve_for_user registry ctx w).on (resolve registry ctx.tenant_id none w).on
unfolding resolve_for_user
resolve_for_user-IsSubset registry ctx w =
    resolve_roles-IsSubset registry ctx.tenant_id w (add_keys (map base_role ctx.roles) [])

-- With each effective feature of a role, all that the feature requires is effective.
pub resolve_closed :
    (registry : List FeatureDef) (tenant : String) (role : Option String) (w : World) (key : String)
    → has key (resolve registry tenant role w).on ≡ true
    → All (λ p. has p (resolve registry tenant role w).on ≡ true) (parents registry key)
unfolding resolve
resolve_closed registry tenant role w key e =
    (cascade_closed registry (layered_set registry tenant role w).on key e).1

below-highest :
    (n : ℕ) (cs : List FeatureConfig) → highest_version cs < n → All (λ c. c.config_version < n) cs
unfolding highest_version
below-highest n [] lt = tt
below-highest n (c ∷ cs) lt =
    (ground (arith, highest_version), below-highest n cs (ground (arith, highest_version)))

-- The version of a configuration that is saved is above that of every configuration that the tenant
-- has, of whichever role.
pub save_config-version :
    (show : ℕ → String) (ctx : AuthCtx) (tenant : String) (role : Option String)
    (overrides : Overrides) (now : ℕ) (w : World)
    → All
        (λ c.
          c.tenant_id ≡ tenant
          → c.config_version < (save_config show ctx tenant role overrides now w).0.config_version)
        w.configs
unfolding save_config
save_config-version show ctx tenant role overrides now w =
    let n = highest_version (list tenant (λ c. true) w.configs) + 1 in
    All-map _ _ (λ c h same. h same refl) w.configs
      (All-of_list (λ c. c.config_version < n) tenant (λ c. true) w.configs
        (below-highest n (list tenant (λ c. true) w.configs) (omega arith)))
