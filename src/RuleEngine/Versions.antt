-- ===== src/RuleEngine/Versions.antt =====
-- The versions of a rule (apps/datacore/src/rules.ts): what retiring a list of rules leaves in the
-- store, and the numbers that `create` gives.
use complete.Base.{
  ◌⊎◌, inl, inr, ℕ, ◌+◌, ◌<◌, String, Bool, true, false, List, [], ◌∷◌, some, ◌≡◌, ◌≢◌, arith, All,
  Bool-cases, str_eq, eq_iff,
}
use complete.Store.{key_of, find_key, put, list}
use complete.Store.Laws.{find_key-put, find_key-key, All-of_list, All-find_key}
use complete.RuleEngine.{
  Rule, NewRule, rule_entity, is_published, retire_rule, retire_all, highest, next_version,
  versions_of, World, create,
}

-- A rule that is published after a write is the one written, or was there before.
pub put-published :
    (k : String) (x : Rule) (s : List Rule) (a : Rule)
    → find_key k (put x s) ≡ some a
    → ((key_of x ≡ k) × (x ≡ a)) ⊎ ((key_of x ≢ k) × (find_key k s ≡ some a))
put-published k x s a e = elim (Bool-cases (str_eq (key_of x) k)) [
  | inl same ↦
      let e' : some x ≡ some a = rw (find_key-put k x s, same) at e in
      inl ((eq_iff (key_of x) k).0 same, cc)
  | inr other ↦
      inr ((λ same. ground (arith, eq_iff (key_of x) k)), (rw (find_key-put k x s, other) at e))
]

-- A rule that is still published when the rules of a list have been retired is none of them, and was
-- there before.
pub retire_all-published :
    (k : String) (olds s : List Rule) (a : Rule)
    → find_key k (retire_all olds s) ≡ some a
    → is_published a.status ≡ true
    → All (λ x. key_of x ≢ k) olds × (find_key k s ≡ some a)
unfolding retire_all
retire_all-published k [] s a e live = (tt, e)
retire_all-published k (x ∷ olds) s a e live =
    let ih = retire_all-published k olds (put (retire_rule x) s) a e live in
    elim (put-published k (retire_rule x) s a ih.1) [
      | inl (_, same) ↦ absurd (ground arith)
      | inr (other, before) ↦ ((other, ih.0), before)
    ]

-- A rule that a listing finds, by the key under which it is read.
pub list-misses :
    (k tenant : String) (pred : Rule → Bool) (s : List Rule) (a : Rule)
    → find_key k s ≡ some a
    → All (λ x. key_of x ≢ k) (list tenant pred s)
    → a.tenant_id ≡ tenant
    → pred a ≡ false
list-misses k tenant pred s a e h same = elim (Bool-cases (pred a)) [
  | inr no_match ↦ no_match
  | inl found ↦ absurd (
      All-find_key (λ x. x.tenant_id ≡ tenant → pred x ≡ true → key_of x ≢ k) k s a
        (All-of_list (λ x. key_of x ≢ k) tenant pred s h) e same found (find_key-key k s a e))
]

below-highest : (n : ℕ) (rs : List Rule) → highest rs < n → All (λ r. r.version < n) rs
unfolding highest
below-highest n [] lt = tt
below-highest n (r ∷ rs) lt =
    (ground (arith, highest), below-highest n rs (ground (arith, highest)))

below-next : (rs : List Rule) → All (λ r. r.version < next_version rs) rs
below-next [] = tt
below-next (r ∷ rs) = below-highest (highest (r ∷ rs) + 1) (r ∷ rs) (omega arith)

-- A new rule's version is above that of every rule that the tenant has under its key.
pub create-version :
    (tenant id : String) (input : NewRule) (w : World)
    → All
        (λ r.
          r.tenant_id ≡ tenant
          → str_eq r.key input.key ≡ true
          → r.version < (create tenant id input w).0.version)
        w.rules
unfolding create
create-version tenant id input w =
    All-of_list (λ r. r.version < next_version (versions_of tenant input.key w.rules)) tenant
      (λ r. str_eq r.key input.key) w.rules (below-next (versions_of tenant input.key w.rules))
