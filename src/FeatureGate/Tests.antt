-- ===== src/FeatureGate/Tests.antt =====
-- A gate that asks once a minute (apps/agentcore/src/features/gate.ts).
use complete.Base.{All, List, ℕ, arith, String, [], ◌∷◌, Option, none, some, ◌≡◌, refl}
use complete.FeatureGate.{
  only, CacheEntry, FetchResult, refused, answered, Gate, map_get, default_ttl_ms,
}
use complete.FeatureGate.Laws.{Later, ask, ask_all, enabled_set-answered}

-- An answer of an hour ago.
abbrev old_entry : CacheEntry
old_entry = record {
  features = "view.dash" ∷ "act.export" ∷ [];
  config_version = 3;
  etag = some "cv-3";
  fetched_at = 1000;
}

abbrev gate : Gate
gate = record {
  cache = ("t", old_entry) ∷ [];
  mock = [];
  stats = record { fetches = 1; etag304 = 0; cache_hits = 0 };
}

abbrev no_text : ℕ → String
no_text n = ""

abbrev fewer : String → Option String → FetchResult
fewer tenant etag = answered ("view.dash" ∷ []) 4 none

abbrev down : String → Option String → FetchResult
down tenant etag = refused

abbrev first_call : Later
first_call = record { fetch = fewer; now = 3600000; later = 3600100 }

abbrev next_calls : List Later
next_calls =
    record { fetch = down; now = 3600100; later = 3600200 }
    ∷ record { fetch = down; now = 3640000; later = 3640100 }
    ∷ record { fetch = down; now = 3650000; later = 3650100 }
    ∷ []

enabled_set-answered_example :
    let (set, g1) = ask no_text default_ttl_ms "t" first_call gate in
    let (sets, g2) = ask_all no_text default_ttl_ms "t" next_calls g1 in
    (set ≡ only ("view.dash" ∷ []))
    × All (λ s. s ≡ only ("view.dash" ∷ [])) sets
    × (g2.stats.fetches ≡ g1.stats.fetches)
unfolding map_get
enabled_set-answered_example =
    enabled_set-answered no_text default_ttl_ms "t" first_call ("view.dash" ∷ []) 4 none next_calls
      gate refl refl (omega arith, (omega arith, (omega arith, tt)))
