-- ===== src/FeatureGate/Laws.antt =====
-- What the gate of features (apps/agentcore/src/features/gate.ts) keeps, and for how long.
use complete.Base.{
  inl, inr, ℕ, ◌+◌, ◌<◌, String, false, List, [], ◌∷◌, Option, some, ◌≡◌, refl, str_eq, eq_refl,
  Bool-cases, All, ap, ◌∙◌, lt→ltb,
}
use complete.FeatureGate.{
  FeatureSet, only, CacheEntry, FetchResult, answered, Gate, map_get, map_set, is_fresh,
  take_answer, fetched_set, enabled_set, etag_of, etag_or,
}

map_get-map_set :
    {V : Type 0} (k : String) (v : V) (m : List (String × V)) → map_get k (map_set k v m) ≡ some v
unfolding map_get map_set
map_get-map_set k v [] = rw (eq_refl k) refl
map_get-map_set k v ((l, u) ∷ m) = elim (Bool-cases (str_eq l k)) [
  | inl e ↦ rw (e, e) refl
  | inr e ↦ rw (e, e) (map_get-map_set k v m)
]

stored_set :
    (show : ℕ → String) (fetch : String → Option String → FetchResult) (ttl now later : ℕ)
    (tenant : String) (e : CacheEntry) (g : Gate)
    → map_get tenant g.cache ≡ some e
    → now < e.fetched_at + ttl
    → ((fetched_set show fetch ttl tenant now later g).0 ≡ only e.features)
      × ((fetched_set show fetch ttl tenant now later g).1.stats.fetches ≡ g.stats.fetches)
      × ((fetched_set show fetch ttl tenant now later g).1.cache ≡ g.cache)
unfolding fetched_set
stored_set show fetch ttl now later tenant e g found lt =
    rw found (let fresh = lt→ltb now (e.fetched_at + ttl) lt in rw fresh (refl, refl, refl))

answered_set :
    (show : ℕ → String) (fetch : String → Option String → FetchResult) (ttl now later : ℕ)
    (tenant : String) (features : List String) (version : ℕ) (etag : Option String) (g : Gate)
    → is_fresh ttl now (map_get tenant g.cache) ≡ false
    → fetch tenant (etag_of (map_get tenant g.cache)) ≡ answered features version etag
    → ((fetched_set show fetch ttl tenant now later g).0 ≡ only features)
      × ((e : CacheEntry) × (map_get tenant (fetched_set show fetch ttl tenant now later g).1.cache
            ≡ some e)
          × (e.features ≡ features)
          × (e.fetched_at ≡ later))
unfolding fetched_set take_answer
answered_set show fetch ttl now later tenant features version etag g old e =
    rw (old, e)
      (let entry : CacheEntry = record {
        features = features;
        config_version = version;
        etag = some (etag_or show etag version);
        fetched_at = later;
      } in
        (refl, (entry, map_get-map_set tenant entry g.cache, refl, refl)))

-- A later call for the tenant: what DataCore would answer it, when it comes, and when the answer would.
pub record Later : Type 0 where
  pub fetch : String → Option String → FetchResult
  pub now : ℕ
  pub later : ℕ

module _ (show : ℕ → String) (ttl : ℕ) (tenant : String) where
  abbrev pub ask : Later → Gate → FeatureSet × Gate
  ask c g = enabled_set show (some c.fetch) ttl tenant c.now c.later g

  -- The sets that calls one after another give, and the gate behind them.
  unfoldable pub ask_all : List Later → Gate → List FeatureSet × Gate
  ask_all [] g = ([], g)
  ask_all (c ∷ cs) g = let (set, g1) = ask c g in let (sets, g2) = ask_all cs g1 in (set ∷ sets, g2)

  stored_each :
      (e : CacheEntry) (cs : List Later) (g : Gate)
      → map_get tenant g.cache ≡ some e
      → All (λ c. c.now < e.fetched_at + ttl) cs
      → All (λ set. set ≡ only e.features) (ask_all cs g).0
        × ((ask_all cs g).1.stats.fetches ≡ g.stats.fetches)
  unfolding ask_all enabled_set
  stored_each e [] g found soon = (tt, refl)
  stored_each e (c ∷ cs) g found soon =
      let g1 = (ask c g).1 in
      let (set, fetches, cache) =
        stored_set show c.fetch ttl c.now c.later tenant e g found soon.0 in
      let rest = stored_each e cs g1 (ap (map_get tenant) cache ∙ found) soon.1 in
      ((set, rest.0), rest.1 ∙ fetches)

  -- A call after the time to live, or the first, that DataCore answers gives the answer's features, and
  -- so do all calls for the tenant that follow it one after another within the time to live after the
  -- answer, with no further fetch, whatever DataCore would answer to them.
  pub enabled_set-answered :
      (first : Later) (features : List String) (version : ℕ) (etag : Option String)
      (cs : List Later) (g : Gate)
      → is_fresh ttl first.now (map_get tenant g.cache) ≡ false
      → first.fetch tenant (etag_of (map_get tenant g.cache)) ≡ answered features version etag
      → All (λ c. c.now < first.later + ttl) cs
      → let (set, g1) = ask first g in
        let (sets, g2) = ask_all cs g1 in
        (set ≡ only features)
        × All (λ s. s ≡ only features) sets
        × (g2.stats.fetches ≡ g1.stats.fetches)
  unfolding enabled_set
  enabled_set-answered first features version etag cs g old e soon =
      let (given, (entry, found, same, at)) =
        answered_set show first.fetch ttl first.now first.later tenant features version etag g old
          e in
      let g1 = (fetched_set show first.fetch ttl tenant first.now first.later g).1 in
      let rest = stored_each entry cs g1 found (rw at soon) in (given, rw (← same) rest.0, rest.1)
