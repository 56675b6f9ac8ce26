-- ===== src/RuleEngine/Published.antt =====
-- The published versions of the rule library (apps/datacore/src/rules.ts) along any sequence of calls.
use complete.Base.{
  ◌⊎◌, inl, inr, String, true, false, not, ◌&&◌, List, [], ◌∷◌, some, ◌≡◌, refl, sym, arith, All,
  Bool-cases, str_eq, filter, subst, All-filter,
}
use complete.Store.{mem_key, find_key, put, get}
use complete.Store.Laws.{All-find_key}
use complete.Store.Keys.{HasNoNul}
use complete.Rules.Parser.{Parsed}
use complete.RuleEngine.{
  Rule, NewRule, Patch, rule_entity, is_published, published, retire_rule, retire_all, World,
  create, publish, update, retire, siblings, versions_of, new_rule, patched, next_version, is_draft,
}
use complete.RuleEngine.Single.{
  IsSingle, IsValid, retire_all-IsValid, found-tenant, list-HasNoNul, put-IsValid, create-IsAlone,
  publish-IsAlone,
}

pub data Call : Type 0 where
  creates : (tenant id : String) → NewRule → Call
  publishes : (tenant id : String) → Call
  updates : (tenant id : String) → Patch → Call
  retires : (tenant id : String) → Call

abbrev pub tenant_of : Call → String
tenant_of (creates tenant id input) = tenant
tenant_of (publishes tenant id) = tenant
tenant_of (updates tenant id patch) = tenant
tenant_of (retires tenant id) = tenant

module _ {N A : Type 0} (parse : String → Parsed N A) where
  abbrev pub step : Call → World → World
  step (creates tenant id input) w = (create tenant id input w).1
  step (publishes tenant id) w = (publish tenant id w).1
  step (updates tenant id patch) w = (update parse tenant id patch w).1
  step (retires tenant id) w = (retire tenant id w).1

  unfoldable pub run : List Call → World → World
  run [] w = w
  run (c ∷ cs) w = run cs (step c w)

create-IsValid :
    (tenant id : String) (input : NewRule) (w : World)
    → HasNoNul tenant
    → IsValid w.rules
    → IsValid (create tenant id input w).1.rules
unfolding create
create-IsValid tenant id input w n h =
    let existing = versions_of tenant input.key w.rules in
    let rule = new_rule tenant id input (next_version existing) in
    let live = λ (r : Rule). is_published r.status in
    elim (Bool-cases (is_published rule.status)) [
      | inl e ↦ rw e (
          put-IsValid rule (retire_all (filter live existing) w.rules) n
            (retire_all-IsValid (filter live existing) w.rules
              (All-filter (λ r. HasNoNul r.tenant_id) live existing
                (list-HasNoNul tenant (λ r. str_eq r.key input.key) w.rules n))
              h)
            (λ _. create-IsAlone rule input.key w.rules refl))
      | inr e ↦ rw e (put-IsValid rule w.rules n h (λ e'. absurd (cc)))
    ]

-- Publishing an unknown id changes nothing; otherwise the other published versions are retired first.
pub publish_outcome :
    (tenant id : String) (w : World)
    → ((publish tenant id w).1 ≡ w)
      ⊎ ((r : Rule) × (get tenant id w.rules ≡ some r)
          × ((publish tenant id w).1.rules
              ≡ put
                  (record r { status = published })
                  (retire_all (siblings tenant r w.rules) w.rules)))
unfolding publish
publish_outcome tenant id w = ground arith

pub retire_outcome :
    (tenant id : String) (w : World)
    → ((retire tenant id w).1 ≡ w)
      ⊎ ((r : Rule) × (get tenant id w.rules ≡ some r)
          × ((retire tenant id w).1.rules ≡ put (retire_rule r) w.rules))
unfolding retire
retire_outcome tenant id w = ground arith

publish-IsValid :
    (tenant id : String) (w : World)
    → HasNoNul tenant
    → IsValid w.rules
    → IsValid (publish tenant id w).1.rules
publish-IsValid tenant id w n h = elim (publish_outcome tenant id w) [
  | inl e ↦ rw e h
  | inr (rule, e, same) ↦
      let others = siblings tenant rule w.rules in
      rw same (
        put-IsValid (record rule { status = published }) (retire_all others w.rules)
          (All-find_key (λ r. HasNoNul r.tenant_id) (mem_key tenant id) w.rules rule h.0 e)
          (retire_all-IsValid others w.rules
            (list-HasNoNul tenant
              (λ r. str_eq r.key rule.key && is_published r.status && not (str_eq r.id rule.id))
              w.rules n)
            h)
          (λ _. publish-IsAlone rule tenant w.rules (found-tenant tenant id w.rules rule n h.0 e)))
]

-- A write that leaves no published rule, of a rule that was read.
rewritten-IsValid :
    (tenant id : String) (s : List Rule) (r x : Rule)
    → IsValid s
    → get tenant id s ≡ some r
    → x.tenant_id ≡ r.tenant_id
    → is_published x.status ≡ false
    → IsValid (put x s)
rewritten-IsValid tenant id s r x h e same e' =
    put-IsValid x s
      (subst HasNoNul (sym same)
        (All-find_key (λ y. HasNoNul y.tenant_id) (mem_key tenant id) s r h.0 e))
      h (λ e''. absurd (cc))

retire-IsValid :
    (tenant id : String) (w : World) → IsValid w.rules → IsValid (retire tenant id w).1.rules
retire-IsValid tenant id w h = elim (retire_outcome tenant id w) [
  | inl e ↦ rw e h
  | inr (rule, e, same) ↦
      rw same (rewritten-IsValid tenant id w.rules rule (retire_rule rule) h e refl refl)
]

module _ {N A : Type 0} (parse : String → Parsed N A) where
  -- An update throws and changes nothing, or writes a draft.
  pub update_outcome :
      (tenant id : String) (patch : Patch) (w : World)
      → ((update parse tenant id patch w).1 ≡ w)
        ⊎ ((r : Rule) × (get tenant id w.rules ≡ some r)
            × (is_draft r.status ≡ true)
            × ((update parse tenant id patch w).1
                ≡ record w { rules = put (patched r patch) w.rules }))
  unfolding update
  update_outcome tenant id patch w = ground arith

  step-IsValid :
      (c : Call) (w : World)
      → HasNoNul (tenant_of c)
      → IsValid w.rules
      → IsValid (step parse c w).rules
  step-IsValid (creates tenant id input) w n h = create-IsValid tenant id input w n h
  step-IsValid (publishes tenant id) w n h = publish-IsValid tenant id w n h
  step-IsValid (retires tenant id) w n h = retire-IsValid tenant id w h
  step-IsValid (updates tenant id patch) w n h = elim (update_outcome tenant id patch w) [
    | inl e ↦ rw e h
    | inr (r, e, d, e') ↦
        rw e' (rewritten-IsValid tenant id w.rules r (patched r patch) h e refl (ground arith))
  ]

  run-IsValid :
      (cs : List Call) (w : World)
      → All (λ c. HasNoNul (tenant_of c)) cs
      → IsValid w.rules
      → IsValid (run parse cs w).rules
  unfolding run
  run-IsValid [] w n h = h
  run-IsValid (c ∷ cs) w n h = run-IsValid cs (step parse c w) n.1 (step-IsValid c w n.0 h)

  abbrev pub empty_world : World
  empty_world = record { rules = []; sent = [] }

  -- After any calls of `create`, `publish`, `update` and `retire` on an empty library, two published
  -- rules of a tenant with one key are the same record, where no tenant's id holds the character of
  -- code 0.
  pub run-IsSingle :
      (cs : List Call)
      → All (λ c. HasNoNul (tenant_of c)) cs
      → IsSingle (run parse cs empty_world).rules
  unfolding find_key
  run-IsSingle cs n = (run-IsValid cs empty_world n (tt, λ k k' a b e. absurd (cc))).1
