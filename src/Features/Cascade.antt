-- ===== src/Features/Cascade.antt =====
-- The cascade of features (apps/datacore/src/features.ts, `cascade` of `FeatureService`): a feature is
-- effective if it is on and all that it requires is. A set is the list of its elements in the order of
-- insertion. The search runs on fuel, one more than the number of features that are on.
use complete.Base.{
  ℕ, zero, suc, String, Bool, true, false, List, [], ◌∷◌, Option, none, some, if◌then◌else◌, str_eq,
  any, filter, length,
}
use complete.Features.Registry.{FeatureDef}

abbrev pub has : String → List String → Bool
has k ks = any (str_eq k) ks

-- `byKey.get`: a later definition of a key hides an earlier one.
unfoldable pub find_def : String → List FeatureDef → Option FeatureDef
find_def key [] = none
find_def key (d ∷ ds) = elim (find_def key ds) [
  | some e ↦ some e
  | none ↦ if str_eq d.key key then some d else none
]

abbrev requires_of : Option FeatureDef → List String
requires_of none = []
requires_of (some d) = d.requires

unfoldable pub parents : List FeatureDef → String → List String
parents registry key = requires_of (find_def key registry)

-- What `isOn` comes to: true, with the keys seen by then; false, after which nothing more is visited.
pub data Visit : Type 0 where
  visited : List String → Visit
  off : Visit
  exhausted : Visit

abbrev pub is_visited : Visit → Bool
is_visited (visited seen) = true
is_visited _ = false

abbrev pub and_on : Visit → (List String → Visit) → Visit
and_on (visited seen) k = k seen
and_on off k = off
and_on exhausted k = exhausted

-- All of the required features, one after another.
abbrev pub all_on : (String → List String → Visit) → List String → List String → Visit
all_on go [] seen = visited seen
all_on go (p ∷ ps) seen = and_on (go p seen) (all_on go ps)

module _ (registry : List FeatureDef) where
  unfoldable pub is_on : ℕ → List String → String → List String → Visit
  unfolding parents
  is_on zero on key seen = exhausted
  is_on (suc f) on key seen =
      if has key seen
      then off
      else if has key on
      then all_on (is_on f on) (parents registry key) (key ∷ seen)
      else off

  unfoldable pub cascade : List String → List String
  unfolding is_on
  cascade on = filter (λ key. is_visited (is_on (suc (length on)) on key [])) on
