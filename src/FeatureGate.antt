-- ===== src/FeatureGate.antt =====
-- AgentCore's gate of features (apps/agentcore/src/features/gate.ts, `FeatureGate` and
-- `MockFeatureStore`): the set of a tenant's features, fetched from DataCore and kept for a time. The
-- HTTP call `fetchImpl` is a parameter, which gets the tenant and the `if-none-match` header; each
-- reading of the clock is an argument. A Map is the list of its entries.
pub mod Laws
pub mod Registry
mod Tests
use Prim.Native.String
use complete.Base.{
  ℕ, ◌+◌, ◌-◌, String, Bool, true, false, not, List, [], ◌∷◌, Option, none, some, if◌then◌else◌,
  str_eq, ltb, any, filter,
}

-- `"ALL" | Set<string>`
pub data FeatureSet : Type 0 where
  every : FeatureSet
  only : List String → FeatureSet

pub record CacheEntry : Type 0 where
  pub features : List String
  pub config_version : ℕ
  pub etag : Option String
  pub fetched_at : ℕ

-- An answer with status 304, one that is not ok, one that is and parses, or an exception.
pub data FetchResult : Type 0 where
  not_modified : FetchResult
  refused : FetchResult
  answered : (features : List String) (config_version : ℕ) (etag : Option String) → FetchResult
  raised : FetchResult

pub record Stats : Type 0 where
  pub fetches : ℕ
  pub etag304 : ℕ
  pub cache_hits : ℕ

pub record Gate : Type 0 where
  pub cache : List (String × CacheEntry)
  pub mock : List (String × FeatureSet)
  pub stats : Stats

abbrev pub default_ttl_ms : ℕ
default_ttl_ms = 60000

-- `Map.get`, `Map.set` and `Map.delete`
module _ {ℓ} {V : Type ℓ} where
  unfoldable pub map_get : String → List (String × V) → Option V
  map_get k [] = none
  map_get k ((l, v) ∷ m) = if str_eq l k then some v else map_get k m

  unfoldable pub map_set : String → V → List (String × V) → List (String × V)
  map_set k v [] = (k, v) ∷ []
  map_set k v ((l, u) ∷ m) = if str_eq l k then (l, v) ∷ m else (l, u) ∷ map_set k v m

  unfoldable pub map_delete : String → List (String × V) → List (String × V)
  map_delete k [] = []
  map_delete k ((l, v) ∷ m) =
      let rest = map_delete k m in if str_eq l k then rest else (l, v) ∷ rest

abbrev pub set_or_every : Option FeatureSet → FeatureSet
set_or_every none = every
set_or_every (some s) = s

abbrev pub mock_get : String → Gate → FeatureSet
mock_get tenant g = set_or_every (map_get tenant g.mock)

abbrev pub etag_of : Option CacheEntry → Option String
etag_of none = none
etag_of (some e) = elim e.etag [ none ↦ none | some t ↦ if str_eq t "" then none else some t ]

abbrev pub stale : Option CacheEntry → FeatureSet
stale none = every
stale (some e) = only e.features

abbrev pub is_fresh : ℕ → ℕ → Option CacheEntry → Bool
is_fresh ttl now none = false
is_fresh ttl now (some e) = ltb now (e.fetched_at + ttl)

abbrev counted : Gate → Gate
counted g = record g { stats = record g.stats { fetches = g.stats.fetches + 1 } }

module _ (show : ℕ → String) where
  abbrev pub etag_or : Option String → ℕ → String
  etag_or none version = String.◌++◌ "\"cv-" (String.◌++◌ (show version) "\"")
  etag_or (some t) version = t

  -- What an answer, which comes at the time `now`, does to the cache.
  unfoldable pub take_answer :
      String → Option CacheEntry → ℕ → FetchResult → Gate → FeatureSet × Gate
  take_answer tenant none now not_modified g = (every, g)
  take_answer tenant (some e) now not_modified g = (
    only e.features,
    record g {
      cache = map_set tenant (record e { fetched_at = now }) g.cache;
      stats = record g.stats { etag304 = g.stats.etag304 + 1 };
    },
  )
  take_answer tenant cached now refused g = (stale cached, g)
  take_answer tenant cached now raised g = (stale cached, g)
  take_answer tenant cached now (answered features version etag) g = (
    only features,
    record g {
      cache =
          map_set tenant
            (record {
              features = features;
              config_version = version;
              etag = some (etag_or etag version);
              fetched_at = now;
            })
            g.cache;
    },
  )

  -- With a base URL: the cache for `ttl` milliseconds, then a fetch. `now` is the time of the call and
  -- `later` that of the answer.
  unfoldable pub fetched_set :
      (String → Option String → FetchResult)
      → ℕ
      → String
      → (now later : ℕ) → Gate
      → FeatureSet × Gate
  unfolding take_answer
  fetched_set fetch ttl tenant now later g =
      let cached = map_get tenant g.cache in
      if is_fresh ttl now cached
      then (
        stale cached,
        record g { stats = record g.stats { cache_hits = g.stats.cache_hits + 1 } },
      )
      else take_answer tenant cached later (fetch tenant (etag_of cached)) (counted g)

  -- `enabledSet`; without a base URL the mock's set.
  unfoldable pub enabled_set :
      Option (String → Option String → FetchResult)
      → ℕ
      → String
      → (now later : ℕ) → Gate
      → FeatureSet × Gate
  enabled_set none ttl tenant now later g = (mock_get tenant g, g)
  enabled_set (some fetch) ttl tenant now later g = fetched_set fetch ttl tenant now later g

unfoldable pub invalidate : String → Gate → Gate
invalidate tenant g = record g { cache = map_delete tenant g.cache }

unfoldable pub mock_set : String → FeatureSet → Gate → Gate
mock_set tenant s g = record g { mock = map_set tenant s g.mock }

unfoldable pub mock_reset : String → Gate → Gate
mock_reset tenant g = record g { mock = map_delete tenant g.mock }

-- All features that are on by default but the given ones; `defaults` is `defaultOnKeys()`.
unfoldable pub mock_disable : List String → String → List String → Gate → Gate
mock_disable defaults tenant keys g =
    mock_set tenant (only (filter (λ k. not (any (str_eq k) keys)) defaults)) g
