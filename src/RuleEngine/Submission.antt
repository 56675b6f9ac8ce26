-- ===== src/RuleEngine/Submission.antt =====
-- The submission of an action draft (apps/datacore/src/actions.ts, `submit`) with the rule engine
-- (apps/datacore/src/rules.ts, `evaluate`) as its rules.
use complete.Base.{
  ◌⊎◌, inl, inr, ℕ, String, Bool, false, not, ◌&&◌, List, [], ◌∷◌, none, some, ◌≡◌, refl, sym, ◌∙◌,
  arith, Bool-cases, str_eq, any, filter,
}
use complete.Json.{Fields}
use complete.Rules.{Numbers}
use complete.Rules.Values.{Platform}
use complete.Actions.Drafts.{AuthCtx, User, ActionDraft}
use complete.Actions.World.{ActionType, Verdict, World, ok, get_type}
use complete.Actions.Service.{submit, check_payload}
use complete.Actions.Outcomes.{submit_outcome}
use complete.RuleEngine.{Rule}
use complete.RuleEngine.Evaluate.{named, RuleVerdict, is_named, evaluate}
use complete.RuleEngine.Blocking.{blocks, evaluate-blocks}

abbrev pub shown : List RuleVerdict → List Verdict
shown [] = []
shown (v ∷ vs) =
    record { passed = v.passed; is_block = v.is_block; explanation = v.explanation } ∷ shown vs

none-blocked :
    (vs : List RuleVerdict)
    → filter (λ v. not v.passed && v.is_block) (shown vs) ≡ []
    → any (λ v. not v.passed && v.is_block) vs ≡ false
none-blocked [] e = refl
none-blocked (v ∷ vs) e = elim (Bool-cases (not v.passed && v.is_block)) [
  | inl q ↦ absurd (let e' = rw q at e in cc)
  | inr q ↦ rw q (none-blocked vs (rw q at e))
]

no_names :
    (rules : List Rule) (p q : Rule → Bool) → any (λ r. p r && (is_named [] r && q r)) rules ≡ false
no_names [] p q = refl
no_names (r ∷ rules) p q = let ih = no_names rules p q in ground arith

module _ {N : Type 0} ⦃numbers : Numbers N⦄ (platform : Platform N) (rules : List Rule) where
  -- The rule engine as the submission calls it.
  abbrev pub engine : AuthCtx → List String → Fields N → List Verdict
  engine ctx ids payload = shown (evaluate platform ctx.tenant_id (named ids) payload rules)

  unblocked :
      (ev : List String → Fields N → List Verdict) (type : ActionType) (payload : Fields N)
      → check_payload ev (some type) payload ≡ none
      → (type.check_rules ≡ [])
        ⊎ (filter (λ v. not v.passed && v.is_block) (ev type.check_rules payload) ≡ [])
  unfolding check_payload
  unblocked ev type payload e = ground arith

  checked :
      (ctx : AuthCtx) (type : ActionType) (payload : Fields N)
      → check_payload (engine ctx) (some type) payload ≡ none
      → any
          (λ r.
            str_eq r.tenant_id ctx.tenant_id
            && (is_named type.check_rules r && blocks platform payload r))
          rules
        ≡ false
  checked ctx type payload e = elim (unblocked (engine ctx) type payload e) [
    | inl q ↦
        rw q
          (no_names rules (λ r. str_eq r.tenant_id ctx.tenant_id) (λ r. blocks platform payload r))
    | inr q ↦
        sym (evaluate-blocks platform payload ctx.tenant_id (named type.check_rules) rules)
        ∙ none-blocked (evaluate platform ctx.tenant_id (named type.check_rules) payload rules) q
  ]

  -- A draft that is submitted breaks no rule: the tenant has no rule that its action type names, that
  -- is not retired, is of severity BLOCK, and whose expression comes to true on the payload.
  pub submit-obeys :
      (types : List ActionType) (users : List User) (ctx : AuthCtx) (id : String) (now : ℕ)
      (w : World N) (d : ActionDraft N) (type : ActionType)
      → (submit (engine ctx) types users ctx id now w).0 ≡ ok d
      → get_type types ctx.tenant_id d.action_type_key ≡ some type
      → any
          (λ r.
            str_eq r.tenant_id ctx.tenant_id
            && (is_named type.check_rules r && blocks platform d.payload r))
          rules
        ≡ false
  submit-obeys types users ctx id now w d type e t =
      elim (submit_outcome (engine ctx) types users ctx id now w) [
        | inl (threw, _) ↦ absurd (ground arith)
        | inr (d', found, _, passed, _, same) ↦
            let payloads : d'.payload ≡ d.payload = ground arith in
            let types' : get_type types ctx.tenant_id d'.action_type_key ≡ some type =
              ground arith in
            rw (← payloads) (checked ctx type d'.payload (rw types' at passed))
      ]
