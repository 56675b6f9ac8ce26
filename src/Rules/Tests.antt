-- ===== src/Rules/Tests.antt =====
-- Parsing and evaluation of a rule (apps/datacore/src/ruledsl.ts).
use complete.Base.{ℕ, List, [], ◌∷◌, ◌≡◌, ◌⊎◌}
use complete.Json.{Json}
use complete.Rules.{gt, field, literal, AstNode, negated, cmp, ident, num, op, Token, DslError}
use complete.Rules.Parser.{ok, failed, parse}
use complete.Rules.Termination.{parse_total}
use complete.Rules.Naturals.{naturals, as_is, decimal}
use complete.Rules.Lexer.{lex, parse_expression, size}
use complete.Rules.Positions.{IsLocated, lex-IsLocated}
use complete.Rules.Grammar.{OrAt}
use complete.Rules.Sound.{parse_iff}
use complete.Rules.Expression.{parse_expression_total}

-- NOT Order.qty > 3
abbrev tokens : List (Token ℕ)
tokens =
    record { form = ident "NOT"; pos = 0 }
    ∷ record { form = ident "Order.qty"; pos = 4 }
    ∷ record { form = op gt; pos = 14 }
    ∷ record { form = num 3; pos = 16 }
    ∷ []

abbrev few : AstNode ℕ
few = negated (cmp gt (field ("Order" ∷ "qty" ∷ [])) (literal (Json.num 3)))

parse_total_example :
    ((a : AstNode ℕ) × (parse as_is 17 tokens ≡ ok a []))
    ⊎ ((e : DslError) × (p : ℕ) × (parse as_is 17 tokens ≡ failed e p))
parse_total_example = parse_total ℕ as_is 17 tokens

parse_iff_example :
    (parse as_is 17 tokens ≡ ok few [] → OrAt as_is 17 few tokens [])
    × (OrAt as_is 17 few tokens [] → parse as_is 17 tokens ≡ ok few [])
parse_iff_example = parse_iff as_is 17 few tokens

lex-IsLocated_example : IsLocated 0 (size "NOT Order.qty > 3") (lex decimal "NOT Order.qty > 3")
lex-IsLocated_example = lex-IsLocated decimal "NOT Order.qty > 3"

parse_expression_total_example :
    ((a : AstNode ℕ) × (parse_expression decimal as_is " qty > '" ≡ ok a []))
    ⊎ ((e : DslError) × (p : ℕ) × (parse_expression decimal as_is " qty > '" ≡ failed e p))
parse_expression_total_example = parse_expression_total ℕ decimal as_is " qty > '"
