-- ===== src/Rules/Laws.antt =====
-- What evaluation depends on (apps/datacore/src/ruledsl.ts, `evaluateAst`).
use complete.Base.{ℕ, String, Bool, true, false, ◌||◌, Option, ◌≡◌, refl, arith}
use complete.Json.{Json}
use complete.Rules.{
  Numbers, Operand, field, literal, func, user, AstNode, both, either, negated, cmp, sustain,
}
use complete.Rules.Evaluation.{EvalContext, eval_operand, evaluate_ast}

module _ {N : Type 0} where
  abbrev pub has_sustain : AstNode N → Bool
  has_sustain (both l r) = has_sustain l || has_sustain r
  has_sustain (either l r) = has_sustain l || has_sustain r
  has_sustain (negated a) = has_sustain a
  has_sustain (cmp o l r) = false
  has_sustain (sustain a days) = true

  module _ ⦃n : Numbers N⦄ (index_of : String → Option ℕ)
      (same_object : Json N → Json N → Bool) where
    same_operand :
        (o : Operand N) (ctx : EvalContext N) (provider : Option (AstNode N → N → Bool))
        → eval_operand index_of same_object o (record ctx { sustain = provider })
          ≡ eval_operand index_of same_object o ctx
    unfolding eval_operand
    same_operand (field path) ctx provider = refl
    same_operand (literal v) ctx provider = refl
    same_operand (func f path) ctx provider = refl
    same_operand (user path) ctx provider = refl

    -- A condition without SUSTAIN has the same value whatever provider evaluates SUSTAIN, or if there is
    -- none: what a row filter or a submission check decides does not depend on the rule scan.
    pub without_sustain :
        (a : AstNode N) (ctx : EvalContext N) (provider : Option (AstNode N → N → Bool))
        → has_sustain a ≡ false
        → evaluate_ast index_of same_object a (record ctx { sustain = provider })
          ≡ evaluate_ast index_of same_object a ctx
    unfolding evaluate_ast
    without_sustain (both l r) ctx provider h =
        rw
          (
            without_sustain l ctx provider (ground arith),
            without_sustain r ctx provider (ground arith),
          )
          refl
    without_sustain (either l r) ctx provider h =
        rw
          (
            without_sustain l ctx provider (ground arith),
            without_sustain r ctx provider (ground arith),
          )
          refl
    without_sustain (negated a) ctx provider h = rw (without_sustain a ctx provider h) refl
    without_sustain (cmp o l r) ctx provider h =
        rw (same_operand l ctx provider, same_operand r ctx provider) refl
    without_sustain (sustain a days) ctx provider h = absurd (cc)
