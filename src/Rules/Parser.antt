-- ===== src/Rules/Parser.antt =====
-- The recursive-descent parser (apps/datacore/src/ruledsl.ts, `Parser`). The state is the list of the
-- tokens that are left. The nested calls run on fuel, of which `parse` gives enough (see `Fuel`).
use complete.Base.{
  Char, ℕ, zero, suc, ◌+◌, ◌*◌, String, Bool, true, false, not, ◌&&◌, ◌||◌, List, [], ◌∷◌, Option,
  none, some, ◌==◌, if◌then◌else◌, str_eq, length, any, filter, code,
}
use complete.Json.{Json, Items, nil, item}
use complete.Rules.{
  Numbers, CmpOp, is_in, Func, sum, min, max, count, avg, Operand, field, literal, func, user,
  AstNode, both, either, negated, cmp, sustain, ident, num, str, op, punct, userref, Token,
  DslError, trailing_tokens, sustain_shape, sustain_days, sustain_close, expected_close,
  expected_operator, unexpected_end, unterminated_array, array_element, function_argument,
  unexpected_keyword, unexpected_token,
}

-- What a parsing function comes to: a value and the tokens left, or the error thrown and its place.
pub data Parsed {ℓ} (N : Type 0) (A : Type ℓ) : Type ℓ where
  ok : A → List (Token N) → Parsed N A
  failed : DslError → ℕ → Parsed N A
  out_of_fuel : Parsed N A

abbrev prepend : Char → List String → List String
prepend c [] = String.◌∷◌ c "" ∷ []
prepend c (w ∷ ws) = String.◌∷◌ c w ∷ ws

-- `v.split(".")`
unfoldable pub split_dots : String → List String
split_dots String.[] = "" ∷ []
split_dots (String.◌∷◌ c r) = if code c == b'.' then "" ∷ split_dots r else prepend c (split_dots r)

abbrev pub nonempty : String → Bool
nonempty w = not (str_eq w "")

abbrev pub drop_user : List String → List String
drop_user [] = []
drop_user (p ∷ path) = if str_eq p "user" then path else p ∷ path

abbrev pub ident_operand : {N : Type 0} → List String → Operand N
ident_operand [] = field []
ident_operand (p ∷ path) = if str_eq p "user" then user path else field (p ∷ path)

abbrev pub func_of : String → Option Func
func_of u =
    if str_eq u "SUM"
    then some sum
    else if str_eq u "MIN"
    then some min
    else if str_eq u "MAX"
    then some max
    else if str_eq u "COUNT"
    then some count
    else if str_eq u "AVG"
    then some avg
    else none

abbrev pub is_reserved : String → Bool
is_reserved u = any (str_eq u) ("AND" ∷ "OR" ∷ "NOT" ∷ "IN" ∷ "TRUE" ∷ "FALSE" ∷ "NULL" ∷ [])

module _ {N : Type 0} where
  abbrev pub position : ℕ → List (Token N) → ℕ
  position end [] = end
  position end (t ∷ ts) = t.pos

  abbrev pub is_punct : String → List (Token N) → Bool
  is_punct v [] = false
  is_punct v (t ∷ ts) = elim t.form [ punct w ↦ str_eq w v | _ ↦ false ]

  abbrev pub rest : List (Token N) → List (Token N)
  rest [] = []
  rest (t ∷ ts) = ts

  abbrev pub snoc : Items N → Json N → Items N
  snoc nil v = item v nil
  snoc (item w vs) v = item w (snoc vs v)

  -- The elements of an array literal, commas passed over wherever they stand.
  unfoldable pub parse_array : ℕ → Items N → List (Token N) → Parsed N (Operand N)
  parse_array end values [] = failed unterminated_array end
  parse_array end values (t ∷ ts) =
      let more = parse_array end values ts in
      elim t.form [
        | num v ↦ parse_array end (snoc values (Json.num v)) ts
        | str v ↦ parse_array end (snoc values (Json.str v)) ts
        | punct p ↦
            if str_eq p "]"
            then ok (literal (Json.arr values)) ts
            else if str_eq p ","
            then more
            else failed array_element t.pos
        | _ ↦ failed array_element t.pos
      ]

  abbrev pub at_end : AstNode N → List (Token N) → Parsed N (AstNode N)
  at_end a [] = ok a []
  at_end a (t ∷ ts) = failed trailing_tokens t.pos

  abbrev pub compared : CmpOp → Operand N → Parsed N (Operand N) → Parsed N (AstNode N)
  compared o left (ok right ts) = ok (cmp o left right) ts
  compared o left (failed e p) = failed e p
  compared o left out_of_fuel = out_of_fuel

  abbrev pub closed : ℕ → AstNode N → List (Token N) → Parsed N (AstNode N)
  closed end inner ts =
      if is_punct ")" ts then ok inner (rest ts) else failed expected_close (position end ts)

  abbrev pub negate : Parsed N (AstNode N) → Parsed N (AstNode N)
  negate (ok a ts) = ok (negated a) ts
  negate (failed e p) = failed e p
  negate out_of_fuel = out_of_fuel

  -- On parsed, what comes next.
  abbrev pub and_then :
      Parsed N (AstNode N)
      → (AstNode N → List (Token N) → Parsed N (AstNode N))
      → Parsed N (AstNode N)
  and_then (ok a ts) k = k a ts
  and_then (failed e p) k = failed e p
  and_then out_of_fuel k = out_of_fuel

  -- `toUpperCase` is a parameter.
  module _ (upper : String → String) where
    abbrev pub is_keyword : String → List (Token N) → Bool
    is_keyword kw [] = false
    is_keyword kw (t ∷ ts) = elim t.form [ ident v ↦ str_eq (upper v) kw | _ ↦ false ]

    -- The argument of a function, behind its opening parenthesis.
    unfoldable pub parse_func : ℕ → Func → List (Token N) → Parsed N (Operand N)
    parse_func end name [] = failed function_argument end
    parse_func end name (t ∷ ts) = elim t.form [
      | ident v ↦
          if is_punct ")" ts
          then ok (func name (split_dots v)) (rest ts)
          else failed expected_close (position end ts)
      | _ ↦ failed function_argument t.pos
    ]

    unfoldable pub parse_ident : ℕ → ℕ → String → List (Token N) → Parsed N (Operand N)
    unfolding parse_func
    parse_ident end pos v ts =
        let u = upper v in
        let plain =
          if is_reserved u
          then failed unexpected_keyword pos
          else ok (ident_operand (split_dots v)) ts in
        if str_eq u "TRUE" || str_eq u "FALSE"
        then ok (literal (Json.bool (str_eq u "TRUE"))) ts
        else if str_eq u "NULL"
        then ok (literal Json.null) ts
        else elim (func_of u) [
          | none ↦ plain
          | some name ↦ if is_punct "(" ts then parse_func end name (rest ts) else plain
        ]

    unfoldable pub parse_operand : ℕ → List (Token N) → Parsed N (Operand N)
    unfolding parse_array parse_ident
    parse_operand end [] = failed unexpected_end end
    parse_operand end (t ∷ ts) = elim t.form [
      | num v ↦ ok (literal (Json.num v)) ts
      | str v ↦ ok (literal (Json.str v)) ts
      | userref v ↦ ok (user (drop_user (filter nonempty (split_dots v)))) ts
      | punct p ↦ if str_eq p "[" then parse_array end nil ts else failed unexpected_token t.pos
      | ident v ↦ parse_ident end t.pos v ts
      | op o ↦ failed unexpected_token t.pos
    ]

    -- The operator behind a left operand, and its right operand.
    unfoldable pub parse_operator : ℕ → Operand N → List (Token N) → Parsed N (AstNode N)
    unfolding parse_operand
    parse_operator end left [] = failed expected_operator end
    parse_operator end left (t ∷ ts) = elim t.form [
      | op o ↦ compared o left (parse_operand end ts)
      | ident v ↦
          if str_eq (upper v) "IN"
          then compared is_in left (parse_operand end ts)
          else failed expected_operator t.pos
      | _ ↦ failed expected_operator t.pos
    ]

    unfoldable pub parse_comparison : ℕ → List (Token N) → Parsed N (AstNode N)
    unfolding parse_operand parse_operator
    parse_comparison end ts = elim (parse_operand end ts) [
      | ok left ts' ↦ parse_operator end left ts'
      | failed e p ↦ failed e p
      | out_of_fuel ↦ out_of_fuel
    ]

    module _ ⦃n : Numbers N⦄ where
      -- `Math.max(1, Math.floor(v))`
      abbrev pub whole_days : N → N
      whole_days v = n.greatest (n.of_nat 1) (n.floor v)

      -- What follows the condition of SUSTAIN.
      unfoldable pub parse_days : ℕ → AstNode N → List (Token N) → Parsed N (AstNode N)
      parse_days end inner ts =
          let behind = rest ts in
          if not (is_punct "," ts) then failed sustain_shape (position end ts) else elim behind [
            | [] ↦ failed sustain_days end
            | t ∷ ts' ↦ elim t.form [
              | num v ↦
                  if is_punct ")" ts'
                  then ok (sustain inner (whole_days v)) (rest ts')
                  else failed sustain_close (position end ts')
              | _ ↦ failed sustain_days t.pos
            ]
          ]

      unfoldable mutual
        pub parse_or : ℕ → ℕ → List (Token N) → Parsed N (AstNode N)
        parse_or zero end ts = out_of_fuel
        parse_or (suc f) end ts = and_then (parse_and f end ts) (parse_or_rest f end)

        pub parse_or_rest : ℕ → ℕ → AstNode N → List (Token N) → Parsed N (AstNode N)
        parse_or_rest zero end left ts = out_of_fuel
        parse_or_rest (suc f) end left ts = elim (is_keyword "OR" ts) [
          | true ↦
              and_then (parse_and f end (rest ts))
                (λ right. parse_or_rest f end (either left right))
          | false ↦ ok left ts
        ]

        pub parse_and : ℕ → ℕ → List (Token N) → Parsed N (AstNode N)
        parse_and zero end ts = out_of_fuel
        parse_and (suc f) end ts = and_then (parse_unary f end ts) (parse_and_rest f end)

        pub parse_and_rest : ℕ → ℕ → AstNode N → List (Token N) → Parsed N (AstNode N)
        parse_and_rest zero end left ts = out_of_fuel
        parse_and_rest (suc f) end left ts = elim (is_keyword "AND" ts) [
          | true ↦
              and_then (parse_unary f end (rest ts))
                (λ right. parse_and_rest f end (both left right))
          | false ↦ ok left ts
        ]

        pub parse_unary : ℕ → ℕ → List (Token N) → Parsed N (AstNode N)
        parse_unary zero end ts = out_of_fuel
        parse_unary (suc f) end ts = elim (is_keyword "NOT" ts) [
          | true ↦ negate (parse_unary f end (rest ts))
          | false ↦ elim (is_keyword "SUSTAIN" ts && is_punct "(" (rest ts)) [
            | true ↦ and_then (parse_or f end (rest (rest ts))) (parse_days end)
            | false ↦ elim (is_punct "(" ts) [
              | true ↦ and_then (parse_or f end (rest ts)) (closed end)
              | false ↦ parse_comparison end ts
            ]
          ]
        ]

      abbrev pub enough_fuel : List (Token N) → ℕ
      enough_fuel ts = 6 * length ts + 6

      -- `parse`; the end of the text is the place of an error behind the last token.
      unfoldable pub parse : ℕ → List (Token N) → Parsed N (AstNode N)
      parse end ts = and_then (parse_or (enough_fuel ts) end ts) at_end
