-- ===== src/RuleEngine/Blocking.antt =====
-- When an evaluation blocks (apps/datacore/src/rules.ts, `evaluate`), and a submission with it
-- (apps/datacore/src/actions.ts, `submit`).
use complete.Base.{
  inl, inr, String, Bool, true, not, ◌&&◌, List, [], ◌∷◌, ◌≡◌, refl, ◌∙◌, arith, Bool-cases, str_eq,
  any, filter,
}
use complete.Store.{list}
use complete.Json.{Fields}
use complete.Rules.{Numbers}
use complete.Rules.Values.{Platform}
use complete.RuleEngine.{Rule, rule_entity, is_published}
use complete.RuleEngine.Evaluate.{
  RuleIds, all_applicable, named, is_named, is_blank, is_true, is_blocking, violation, verdicts,
  evaluate,
}

any-list :
    (p : Rule → Bool) (tenant : String) (pred : Rule → Bool) (s : List Rule)
    → any p (list tenant pred s) ≡ any (λ r. (str_eq r.tenant_id tenant && pred r) && p r) s
unfolding list
any-list p tenant pred [] = refl
any-list p tenant pred (r ∷ s) =
    let ih = any-list p tenant pred s in
    elim (Bool-cases (str_eq r.tenant_id tenant && pred r)) [
      | inl e ↦ rw (e, ih) refl
      | inr e ↦ rw (e, ih) refl
    ]

any-filter : (p q : Rule → Bool) (s : List Rule) → any p (filter q s) ≡ any (λ r. q r && p r) s
any-filter p q [] = refl
any-filter p q (r ∷ s) =
    let ih = any-filter p q s in
    elim (Bool-cases (q r)) [ inl e ↦ rw (e, ih) refl | inr e ↦ rw (e, ih) refl ]

any-verdicts :
    {N : Type 0} ⦃numbers : Numbers N⦄ (platform : Platform N) (payload : Fields N) (rs : List Rule)
    → any (λ v. not v.passed && v.is_block) (verdicts platform payload rs)
      ≡ any
          (λ r.
            not (is_blank r.expression)
            && (is_true (violation platform payload r) && is_blocking r.severity))
          rs
unfolding verdicts
any-verdicts platform payload [] = refl
any-verdicts platform payload (r ∷ rs) =
    let ih = any-verdicts platform payload rs in
    elim (Bool-cases (is_blank r.expression)) [
      | inl e ↦ rw (e, ih) refl
      | inr e ↦ elim (Bool-cases (is_true (violation platform payload r))) [
        | inl e' ↦ rw (e, e', ih) refl
        | inr e' ↦ rw (e, e', ih) refl
      ]
    ]

any-congr : (p q : Rule → Bool) → ((r : Rule) → p r ≡ q r) → (s : List Rule) → any p s ≡ any q s
any-congr p q h [] = refl
any-congr p q h (r ∷ s) = let ih = any-congr p q h s in rw (h r, ih) refl

module _ {N : Type 0} ⦃numbers : Numbers N⦄ (platform : Platform N) (payload : Fields N) where
  -- A rule that blocks, whatever the others come to.
  abbrev pub blocks : Rule → Bool
  blocks r =
      not (is_blank r.expression)
      && (is_true (violation platform payload r) && is_blocking r.severity)

  abbrev pub is_selected : RuleIds → Rule → Bool
  is_selected all_applicable r = is_published r.status
  is_selected (named ids) r = is_named ids r

  -- Among the verdicts one blocks, just in case the tenant has a rule that is selected (published where
  -- all apply; named by its id or key and not retired otherwise), of severity BLOCK, with an
  -- expression that is not blank and comes to true. One that cannot be evaluated does not block.
  pub evaluate-blocks :
      (tenant : String) (ids : RuleIds) (rules : List Rule)
      → any (λ v. not v.passed && v.is_block) (evaluate platform tenant ids payload rules)
        ≡ any (λ r. str_eq r.tenant_id tenant && (is_selected ids r && blocks r)) rules
  unfolding evaluate
  evaluate-blocks tenant all_applicable rules =
      any-verdicts platform payload (list tenant (λ r. is_published r.status) rules)
      ∙ (any-list blocks tenant (λ r. is_published r.status) rules
          ∙ any-congr _ _ (λ r. ground arith) rules)
  evaluate-blocks tenant (named ids) rules =
      any-verdicts platform payload (filter (is_named ids) (list tenant (λ r. true) rules))
      ∙ (any-filter blocks (is_named ids) (list tenant (λ r. true) rules)
          ∙ (any-list (λ r. is_named ids r && blocks r) tenant (λ r. true) rules
              ∙ any-congr _ _ (λ r. ground arith) rules))
