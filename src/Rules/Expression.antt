-- ===== src/Rules/Expression.antt =====
-- The parsing of a text (apps/datacore/src/ruledsl.ts, `parseExpression`) ends.
use complete.Base.{inl, inr, ◌⊎◌, ℕ, ◌+◌, ◌-◌, String, [], ◌≡◌, refl, str_eq, Bool-cases}
use complete.Rules.{Numbers, AstNode, DslError, empty_expression}
use complete.Rules.Parser.{Parsed, ok, failed, out_of_fuel, parse}
use complete.Rules.Lexer.{
  Lexed, tokens, bad, exhausted, lex, parse_expression, trim, size, drop_while, is_space,
}
use complete.Rules.Positions.{IsLocated, lex-IsLocated}
use complete.Rules.Termination.{parse_total}

module _ (N : Type 0) (number : String → N) (upper : String → String) ⦃numbers : Numbers N⦄ where
  IsFinal : Parsed N (AstNode N) → Type 0
  IsFinal r = ((a : AstNode N) × (r ≡ ok a [])) ⊎ ((e : DslError) × (p : ℕ) × (r ≡ failed e p))

  placed :
      (offset : ℕ) (r : Parsed N (AstNode N))
      → IsFinal r
      → IsFinal (elim r [
        | failed e p ↦ failed e (p + offset)
        | ok a rest ↦ ok a rest
        | out_of_fuel ↦ out_of_fuel
      ])
  unfolding IsFinal
  placed offset r (inl (a, e)) = rw e (inl (a, refl))
  placed offset r (inr (e, p, same)) = rw same (inr (e, p + offset, refl))

  lexed :
      (offset end n : ℕ) (l : Lexed N)
      → IsLocated 0 n l
      → IsFinal (elim l [
        | bad e p ↦ failed e (p + offset)
        | exhausted ↦ out_of_fuel
        | tokens ts ↦ elim (parse upper end ts) [
          | failed e p ↦ failed e (p + offset)
          | ok a rest ↦ ok a rest
          | out_of_fuel ↦ out_of_fuel
        ]
      ])
  unfolding IsFinal
  lexed offset end n (tokens ts) h = placed offset (parse upper end ts) (parse_total N upper end ts)
  lexed offset end n (bad e p) h = inr (e, p + offset, refl)
  lexed offset end n exhausted h = absurd h

  -- The parsing of any text ends: in a tree, with every token read, or in an error with its place.
  pub parse_expression_total :
      (s : String)
      → ((a : AstNode N) × (parse_expression number upper s ≡ ok a []))
        ⊎ ((e : DslError) × (p : ℕ) × (parse_expression number upper s ≡ failed e p))
  unfolding parse_expression IsFinal
  parse_expression_total s = elim (Bool-cases (str_eq (trim s) "")) [
    | inl e ↦ rw e (inr (empty_expression, 0, refl))
    | inr e ↦ rw e (
        lexed (size s - size (drop_while is_space s)) (size (trim s)) (size (trim s))
          (lex number (trim s)) (lex-IsLocated number (trim s)))
  ]
