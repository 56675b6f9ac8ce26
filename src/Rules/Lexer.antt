-- ===== src/Rules/Lexer.antt =====
-- The lexer (apps/datacore/src/ruledsl.ts, `lex` and `parseExpression`). A text is read as characters,
-- where the source counts UTF-16 units, and `Number` is a parameter. The loop runs on fuel, of which
-- the length of the text is enough (see `Positions`). Every unit from U+00C0 on counts as a letter.
use complete.Base.{
  Char, code, ℕ, zero, suc, ◌+◌, ◌-◌, String, Bool, false, not, ◌&&◌, ◌||◌, List, [], ◌∷◌, Option,
  none, some, if◌then◌else◌, ◌==◌, leb, str_eq,
}
use complete.Rules.{
  Numbers, CmpOp, gt, ge, lt, le, eq, ne, AstNode, Form, ident, num, str, op, punct, userref, Token,
  DslError, unterminated_reference, unterminated_string, unexpected_character, empty_expression,
}
use complete.Rules.Parser.{Parsed, ok, failed, out_of_fuel, parse}

abbrev pub size : String → ℕ
size String.[] = 0
size (String.◌∷◌ c s) = suc (size s)

abbrev within : ℕ → ℕ → Char → Bool
within a b c = leb a (code c) && leb (code c) b

-- `/\\s/`, the characters that `trim` removes too.
unfoldable pub is_space : Char → Bool
is_space c =
    within 9 13 c
    || code c == 32
    || code c == 160
    || code c == 5760
    || within 8192 8202 c
    || within 8232 8233 c
    || code c == 8239
    || code c == 8287
    || code c == 12288
    || code c == 65279

unfoldable pub is_digit : Char → Bool
is_digit c = within b'0' b'9' c

unfoldable pub is_letter : Char → Bool
is_letter c = within b'A' b'Z' c || within b'a' b'z' c || code c == b'_' || leb 192 (code c)

unfoldable pub in_number : Char → Bool
in_number c = is_digit c || code c == b'.' || code c == b'e' || code c == b'E' || code c == b'_'

unfoldable pub in_ident : Char → Bool
in_ident c = is_letter c || is_digit c || code c == b'.'

-- What the loops over `j` take, and what they leave.
unfoldable pub take_while : (Char → Bool) → String → String
take_while p String.[] = ""
take_while p (String.◌∷◌ c s) = let rest = take_while p s in if p c then String.◌∷◌ c rest else ""

unfoldable pub drop_while : (Char → Bool) → String → String
drop_while p String.[] = ""
drop_while p (String.◌∷◌ c s) = let rest = drop_while p s in if p c then rest else String.◌∷◌ c s

abbrev pub tail_of : String → String
tail_of String.[] = ""
tail_of (String.◌∷◌ c s) = s

abbrev pub starts_with : (Char → Bool) → String → Bool
starts_with p String.[] = false
starts_with p (String.◌∷◌ c s) = p c

unfoldable pub trim_end : String → String
trim_end String.[] = ""
trim_end (String.◌∷◌ c s) =
    let rest = trim_end s in if is_space c && str_eq rest "" then "" else String.◌∷◌ c rest

-- `trim`
abbrev pub trim : String → String
trim s = trim_end (drop_while is_space s)

abbrev pub without_underscores : String → String
without_underscores String.[] = ""
without_underscores (String.◌∷◌ c s) =
    let rest = without_underscores s in if code c == b'_' then rest else String.◌∷◌ c rest

abbrev pub is_code : ℕ → Char → Bool
is_code n c = code c == n

abbrev pub is_not : ℕ → Char → Bool
is_not n c = not (code c == n)

-- What one turn of the loop comes to: blank passed over, a token, or an error. The text is what is left.
pub data Turn (N : Type 0) : Type 0 where
  skipped : String → Turn N
  made : Form N → String → Turn N
  wrong : DslError → Turn N

-- The tokens, or the error that is thrown and its place.
pub data Lexed (N : Type 0) : Type 0 where
  tokens : List (Token N) → Lexed N
  bad : DslError → ℕ → Lexed N
  exhausted : Lexed N

abbrev pub add_token : {N : Type 0} → Form N → ℕ → Lexed N → Lexed N
add_token form i (tokens ts) = tokens (record { form = form; pos = i } ∷ ts)
add_token form i (bad e p) = bad e p
add_token form i exhausted = exhausted

abbrev pub two_op : Char → String → Option CmpOp
two_op c s =
    if starts_with (is_code b'=') s
    then if code c == b'>'
      then some ge
      else if code c == b'<'
      then some le
      else if code c == b'='
      then some eq
      else if code c == b'!'
      then some ne
      else none
    else none

abbrev pub one_op : Char → Option CmpOp
one_op c = if code c == b'>' then some gt else if code c == b'<' then some lt else none

abbrev pub is_punctuation : Char → Bool
is_punctuation c =
    code c == b'(' || code c == b')' || code c == b',' || code c == b'[' || code c == b']'

module _ {N : Type 0} where
  -- The closing character is dropped, and it is an error if there is none.
  abbrev pub closing : Form N → DslError → String → Turn N
  closing form e String.[] = wrong e
  closing form e (String.◌∷◌ c rest) = made form rest

  unfoldable pub closed_by : ℕ → (String → Form N) → DslError → String → Turn N
  closed_by close form e s =
      closing (form (take_while (is_not close) s)) e (drop_while (is_not close) s)

  unfoldable pub operator : Char → String → Turn N
  operator c s = elim (two_op c s) [
    | some o ↦ made (op o) (tail_of s)
    | none ↦ elim (one_op c) [
      | some o ↦ made (op o) s
      | none ↦
          if is_punctuation c then made (punct (String.◌∷◌ c "")) s else wrong unexpected_character
    ]
  ]

-- The rest of the loop behind a turn at the index `i`, where `n` characters were left.
abbrev pub resume : {N : Type 0} → (ℕ → String → Lexed N) → ℕ → ℕ → Turn N → Lexed N
resume go i n (skipped rest) = go (i + (n - size rest)) rest
resume go i n (made form rest) = add_token form i (go (i + (n - size rest)) rest)
resume go i n (wrong e) = bad e i

module _ {N : Type 0} (number : String → N) where
  -- One turn, at the character `c` with `s` behind it.
  unfoldable pub turn : Char → String → Turn N
  unfolding closed_by operator
  turn c s =
      if is_space c
      then skipped s
      else if code c == b'$' && starts_with (is_code b'{') s
      then closed_by b'}' (λ v. userref (trim v)) unterminated_reference (tail_of s)
      else if code c == b'\"' || code c == b'\''
      then closed_by (code c) str unterminated_string s
      else if is_digit c || (code c == b'-' && starts_with is_digit s)
      then made (num (number (without_underscores (String.◌∷◌ c (take_while in_number s)))))
          (drop_while in_number s)
      else if is_letter c
      then made (ident (String.◌∷◌ c (take_while in_ident s))) (drop_while in_ident s)
      else operator c s

  -- The loop, from the index `i` on.
  unfoldable pub lex_from : ℕ → ℕ → String → Lexed N
  unfolding turn
  lex_from zero i s = exhausted
  lex_from (suc f) i String.[] = tokens []
  lex_from (suc f) i (String.◌∷◌ c s) = resume (lex_from f) i (suc (size s)) (turn c s)

  unfoldable pub lex : String → Lexed N
  unfolding lex_from
  lex s = lex_from (suc (size s)) 0 s

  -- What `parseExpression` comes to.
  module _ (upper : String → String) ⦃n : Numbers N⦄ where
    -- The places of errors are moved by the blank that was trimmed at the front.
    unfoldable pub parse_expression : String → Parsed N (AstNode N)
    unfolding lex parse
    parse_expression s =
        let trimmed = trim s in
        let offset = size s - size (drop_while is_space s) in
        if str_eq trimmed "" then failed empty_expression 0 else elim (lex trimmed) [
          | bad e p ↦ failed e (p + offset)
          | exhausted ↦ out_of_fuel
          | tokens ts ↦ elim (parse upper (size trimmed) ts) [
            | failed e p ↦ failed e (p + offset)
            | ok a rest ↦ ok a rest
            | out_of_fuel ↦ out_of_fuel
          ]
        ]
