-- ===== src/Rules/Values.antt =====
-- What a text of the rule language comes to (apps/datacore/src/ruledsl.ts, `evaluateExpression`).
use complete.Base.{ℕ, String, Bool, Option, none, some}
use complete.Json.{Json}
use complete.Rules.{Numbers, AstNode}
use complete.Rules.Parser.{ok, failed, out_of_fuel, Parsed}
use complete.Rules.Lexer.{parse_expression}
use complete.Rules.Evaluation.{EvalContext, evaluate_ast}

-- What the language asks of the platform: numbers and their texts, upper case, the reading of a
-- property name as an index, and the identity of arrays and objects.
pub record Platform (N : Type 0) : Type 0 where
  pub number : String → N
  pub upper : String → String
  pub index_of : String → Option ℕ
  pub same_object : Json N → Json N → Bool

module _ {N : Type 0} ⦃numbers : Numbers N⦄ where
  abbrev tree_of : Parsed N (AstNode N) → Option (AstNode N)
  tree_of (ok a ts) = some a
  tree_of (failed e p) = none
  tree_of out_of_fuel = none

  -- The tree, or none where `parseExpression` throws.
  unfoldable pub tree : Platform N → String → Option (AstNode N)
  tree p s = tree_of (parse_expression p.number p.upper s)

  abbrev pub value_of : Platform N → EvalContext N → Option (AstNode N) → Option Bool
  value_of p ctx none = none
  value_of p ctx (some a) = some (evaluate_ast p.index_of p.same_object a ctx)

  -- The value, or none where `evaluateExpression` throws.
  unfoldable pub evaluate_expression : Platform N → String → EvalContext N → Option Bool
  evaluate_expression p s ctx = value_of p ctx (tree p s)
