-- ===== src/RuleEngine/Contents.antt =====
-- The contents of a rule that is no longer a draft (apps/datacore/src/rules.ts) do not change.
use complete.Base.{
  inl, inr, String, Bool, false, not, ◌&&◌, List, [], ◌∷◌, ◌≡◌, ◌≢◌, refl, Bool-cases, str_eq,
  filter, All, All-map, All-filter,
}
use complete.Store.{key_of, mem_key, put, list}
use complete.Store.Laws.{All-list, All-put, All-find_key}
use complete.Rules.Parser.{Parsed}
use complete.RuleEngine.{
  Rule, NewRule, rule_entity, is_published, is_draft, draft, retire_rule, retire_all, World, create,
  versions_of, new_rule, next_version, siblings, published, patched, publish, retire,
}
use complete.RuleEngine.Published.{
  Call, creates, publishes, updates, retires, step, run, update_outcome, publish_outcome,
  retire_outcome,
}

-- A record under the key `k` has the contents of `a`, and is no draft.
abbrev pub IsFrozen : String → Rule → Rule → Type 0
IsFrozen k a x =
    key_of x ≡ k
    → (record x { status = draft } ≡ record a { status = draft }) × (is_draft x.status ≡ false)

-- No rule is created under the key.
abbrev pub Spares : String → Call → Type 0
Spares k (creates tenant id input) = mem_key tenant id ≢ k
Spares k (publishes tenant id) = Unit
Spares k (updates tenant id patch) = Unit
Spares k (retires tenant id) = Unit

retire_all-IsFrozen :
    (k : String) (a : Rule) (olds s : List Rule)
    → All (IsFrozen k a) olds
    → All (IsFrozen k a) s
    → All (IsFrozen k a) (retire_all olds s)
unfolding retire_all
retire_all-IsFrozen k a [] s o h = h
retire_all-IsFrozen k a (x ∷ olds) s o h =
    retire_all-IsFrozen k a olds (put (retire_rule x) s) o.1
      (All-put (IsFrozen k a) (retire_rule x) s (λ e. ((o.0 e).0, refl)) h)

module _ (k : String) (a : Rule) where
  listed-IsFrozen :
      (tenant : String) (pred : Rule → Bool) (s : List Rule)
      → All (IsFrozen k a) s
      → All (IsFrozen k a) (list tenant pred s)
  listed-IsFrozen tenant pred s h =
      All-map _ (IsFrozen k a) (λ x p. p.0) (list tenant pred s)
        (All-list (IsFrozen k a) tenant pred s h)

  create-IsFrozen :
      (tenant id : String) (input : NewRule) (w : World)
      → mem_key tenant id ≢ k
      → All (IsFrozen k a) w.rules
      → All (IsFrozen k a) (create tenant id input w).1.rules
  unfolding create
  create-IsFrozen tenant id input w other h =
      let existing = versions_of tenant input.key w.rules in
      let rule = new_rule tenant id input (next_version existing) in
      let live = λ (r : Rule). is_published r.status in
      elim (Bool-cases (is_published rule.status)) [
        | inl e ↦ rw e (
            All-put (IsFrozen k a) rule (retire_all (filter live existing) w.rules)
              (λ e'. absurd (other e'))
              (retire_all-IsFrozen k a (filter live existing) w.rules
                (All-filter (IsFrozen k a) live existing
                  (listed-IsFrozen tenant (λ r. str_eq r.key input.key) w.rules h))
                h))
        | inr e ↦ rw e (All-put (IsFrozen k a) rule w.rules (λ e'. absurd (other e')) h)
      ]

  publish-IsFrozen :
      (tenant id : String) (w : World)
      → All (IsFrozen k a) w.rules
      → All (IsFrozen k a) (publish tenant id w).1.rules
  publish-IsFrozen tenant id w h = elim (publish_outcome tenant id w) [
    | inl e ↦ rw e h
    | inr (r, e, same) ↦
        let p = All-find_key (IsFrozen k a) (mem_key tenant id) w.rules r h e in
        rw same (
          All-put (IsFrozen k a) (record r { status = published })
            (retire_all (siblings tenant r w.rules) w.rules) (λ e'. ((p e').0, refl))
            (retire_all-IsFrozen k a (siblings tenant r w.rules) w.rules
              (listed-IsFrozen tenant
                (λ x. str_eq x.key r.key && is_published x.status && not (str_eq x.id r.id)) w.rules
                h)
              h))
  ]

  retire-IsFrozen :
      (tenant id : String) (w : World)
      → All (IsFrozen k a) w.rules
      → All (IsFrozen k a) (retire tenant id w).1.rules
  retire-IsFrozen tenant id w h = elim (retire_outcome tenant id w) [
    | inl e ↦ rw e h
    | inr (r, e, same) ↦
        let p = All-find_key (IsFrozen k a) (mem_key tenant id) w.rules r h e in
        rw same (All-put (IsFrozen k a) (retire_rule r) w.rules (λ e'. ((p e').0, refl)) h)
  ]

module _ {N A : Type 0} (parse : String → Parsed N A) (k : String) (a : Rule) where
  step-IsFrozen :
      (c : Call) (w : World)
      → Spares k c
      → All (IsFrozen k a) w.rules
      → All (IsFrozen k a) (step parse c w).rules
  step-IsFrozen (creates tenant id input) w s h = create-IsFrozen k a tenant id input w s h
  step-IsFrozen (publishes tenant id) w s h = publish-IsFrozen k a tenant id w h
  step-IsFrozen (retires tenant id) w s h = retire-IsFrozen k a tenant id w h
  step-IsFrozen (updates tenant id patch) w s h = elim (update_outcome parse tenant id patch w) [
    | inl e ↦ rw e h
    | inr (r, e, d, same) ↦
        let p = All-find_key (IsFrozen k a) (mem_key tenant id) w.rules r h e in
        rw same (
          All-put (IsFrozen k a) (patched r patch) w.rules (λ e'. absurd (let q = (p e').1 in cc))
            h)
  ]

  -- What is under the key of a rule that is published or retired keeps the rule's contents, and is
  -- never a draft again, in any calls of `create`, `publish`, `update` and `retire` that create no rule
  -- under that key.
  pub run-IsFrozen :
      (cs : List Call) (w : World)
      → All (Spares k) cs
      → All (IsFrozen k a) w.rules
      → All (IsFrozen k a) (run parse cs w).rules
  unfolding run
  run-IsFrozen [] w s h = h
  run-IsFrozen (c ∷ cs) w s h = run-IsFrozen cs (step parse c w) s.1 (step-IsFrozen c w s.0 h)
