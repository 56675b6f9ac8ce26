-- ===== src/Rules/Sound.antt =====
-- What the parser (apps/datacore/src/ruledsl.ts, `Parser`) returns is a tree of the grammar, and the
-- only one.
use text.Mathlib.TextEquality.{eq_iff}
use complete.Base.{
  inl, inr, ℕ, zero, suc, String, true, false, not, ◌&&◌, List, [], ◌∷◌, ◌≡◌, refl, sym, ap, ◌∙◌,
  arith, Bool-cases, if◌then◌else◌, str_eq,
}
use complete.Rules.{
  Numbers, AstNode, both, either, sustain, num, punct, Token, CmpOp, is_in, Operand, expected_close,
  expected_operator, sustain_shape, sustain_days, sustain_close,
}
use complete.Rules.Parser.{
  Parsed, ok, failed, out_of_fuel, position, is_punct, rest, is_keyword, parse_days, closed,
  parse_or, parse_or_rest, parse_and, parse_and_rest, parse_unary, parse, enough_fuel, whole_days,
  parse_operator, parse_operand, parse_comparison, compared,
}
use complete.Rules.Fuel.{form_case, is_ident, is_num, is_str, is_op, is_a_punct, is_userref}
use complete.Rules.Complete.{or_complete}
use complete.Rules.Grammar.{
  SignAt, sign, in_sign, OrAt, or_at, OrRestAt, or_end, or_more, AndAt, and_at, AndRestAt, and_end,
  and_more, UnaryAt, not_at, sustain_at, paren_at, cmp_at,
}
use complete.Rules.Returns.{
  Returns, Returns-and_then, Returns-map, Returns-negate, Returns-compared, Returns-if, tree_or,
  Returns-at_end, punct-form,
}

module _ {N : Type 0} (upper : String → String) ⦃n : Numbers N⦄ (end : ℕ) where
  paren_sound :
      (ts more : List (Token N)) (a : AstNode N)
      → is_keyword upper "NOT" ts ≡ false
      → is_keyword upper "SUSTAIN" ts && is_punct "(" (rest ts) ≡ false
      → is_punct "(" ts ≡ true
      → OrAt upper end a (rest ts) more
      → Returns (λ b left. UnaryAt upper end b ts left) (closed end a more)
  paren_sound ts [] a n1 n2 p d = tt
  paren_sound ts (t ∷ more) a n1 n2 p d =
      Returns-if (λ b left. UnaryAt upper end b ts left) (is_punct ")" (t ∷ more)) (ok a more)
        (failed expected_close t.pos)
        (λ y. paren_at a t ts more n1 n2 p d (punct-form ")" t.form y)) tt

  close_sound :
      (ts more : List (Token N)) (comma days : Token N) (a : AstNode N) (v : N)
      → is_keyword upper "NOT" ts ≡ false
      → is_keyword upper "SUSTAIN" ts && is_punct "(" (rest ts) ≡ true
      → OrAt upper end a (rest (rest ts)) (comma ∷ (days ∷ more))
      → comma.form ≡ punct ","
      → days.form ≡ num v
      → Returns
          (λ b left. UnaryAt upper end b ts left)
          (if is_punct ")" more
            then ok (sustain a (whole_days upper v)) (rest more)
            else failed sustain_close (position end more))
  close_sound ts [] comma days a v n1 y d c e = tt
  close_sound ts (t ∷ more) comma days a v n1 y d c e =
      Returns-if (λ b left. UnaryAt upper end b ts left) (is_punct ")" (t ∷ more))
        (ok (sustain a (whole_days upper v)) more) (failed sustain_close t.pos)
        (λ z. sustain_at a comma days t v ts more n1 y d c e (punct-form ")" t.form z)) tt

  sustain_sound :
      (ts more : List (Token N)) (a : AstNode N)
      → is_keyword upper "NOT" ts ≡ false
      → is_keyword upper "SUSTAIN" ts && is_punct "(" (rest ts) ≡ true
      → OrAt upper end a (rest (rest ts)) more
      → Returns (λ b left. UnaryAt upper end b ts left) (parse_days upper end a more)
  unfolding parse_days
  sustain_sound ts [] a n1 y d = tt
  sustain_sound ts (comma ∷ []) a n1 y d =
      Returns-if (λ b left. UnaryAt upper end b ts left) (not (is_punct "," (comma ∷ [])))
        (failed sustain_shape comma.pos) (failed sustain_days end) (λ h. tt) tt
  sustain_sound ts (comma ∷ (days ∷ more)) a n1 y d =
      elim (Bool-cases (is_punct "," (comma ∷ []))) [
        | inr e ↦ rw e tt
        | inl e ↦ elim (form_case days.form) [
          | is_num v e' ↦
              rw (e, e')
                (close_sound ts more comma days a v n1 y d (punct-form "," comma.form e) e')
          | is_ident v e' ↦ rw (e, e') tt
          | is_str v e' ↦ rw (e, e') tt
          | is_op v e' ↦ rw (e, e') tt
          | is_a_punct v e' ↦ rw (e, e') tt
          | is_userref v e' ↦ rw (e, e') tt
        ]
      ]

  sign_sound :
      (l : Operand N) (ts more : List (Token N))
      → is_keyword upper "NOT" ts ≡ false
      → is_keyword upper "SUSTAIN" ts && is_punct "(" (rest ts) ≡ false
      → is_punct "(" ts ≡ false
      → parse_operand upper end ts ≡ ok l more
      → Returns (λ b left. UnaryAt upper end b ts left) (parse_operator upper end l more)
  unfolding parse_operator
  sign_sound l ts [] n1 n2 n3 h = tt
  sign_sound l ts (t ∷ mid) n1 n2 n3 h =
      let P : AstNode N → List (Token N) → Type 0 = λ b left. UnaryAt upper end b ts left in
      let right : (o : CmpOp)
          → SignAt upper end o t
          → Returns P (compared o l (parse_operand upper end mid)) =
        λ o s.
          Returns-compared P o l (parse_operand upper end mid)
            (λ r left k. cmp_at o l r t ts mid left n1 n2 n3 h s k) in
      elim (form_case t.form) [
        | is_op o e ↦ rw e (right o (sign e))
        | is_ident v e ↦ rw e (
            Returns-if P (str_eq (upper v) "IN") (compared is_in l (parse_operand upper end mid))
              (failed expected_operator t.pos)
              (λ y. right is_in (in_sign v e ((eq_iff (upper v) "IN").0 y))) tt)
        | is_num v e ↦ rw e tt
        | is_str v e ↦ rw e tt
        | is_a_punct v e ↦ rw e tt
        | is_userref v e ↦ rw e tt
      ]

  -- What follows the left operand, where that was read.
  operator_of_sound :
      (ts : List (Token N)) (r : Parsed N (Operand N))
      → r ≡ parse_operand upper end ts
      → is_keyword upper "NOT" ts ≡ false
      → is_keyword upper "SUSTAIN" ts && is_punct "(" (rest ts) ≡ false
      → is_punct "(" ts ≡ false
      → Returns
          (λ b left. UnaryAt upper end b ts left)
          (elim r [
            | ok left ts' ↦ parse_operator upper end left ts'
            | failed e p ↦ failed e p
            | out_of_fuel ↦ out_of_fuel
          ])
  operator_of_sound ts (ok l more) e n1 n2 n3 = sign_sound l ts more n1 n2 n3 (sym e)
  operator_of_sound ts (failed x p) e n1 n2 n3 = tt
  operator_of_sound ts out_of_fuel e n1 n2 n3 = tt

  comparison_sound :
      (ts : List (Token N))
      → is_keyword upper "NOT" ts ≡ false
      → is_keyword upper "SUSTAIN" ts && is_punct "(" (rest ts) ≡ false
      → is_punct "(" ts ≡ false
      → Returns (λ b left. UnaryAt upper end b ts left) (parse_comparison upper end ts)
  unfolding parse_comparison
  comparison_sound ts n1 n2 n3 = operator_of_sound ts (parse_operand upper end ts) refl n1 n2 n3

  mutual
    unfolding parse_or

    or_sound :
        (f : ℕ) (ts : List (Token N))
        → Returns (λ a left. OrAt upper end a ts left) (parse_or upper f end ts)
    or_sound zero ts = tt
    or_sound (suc f) ts =
        Returns-and_then (λ a mid. AndAt upper end a ts mid) (λ a left. OrAt upper end a ts left)
          (parse_and upper f end ts) (parse_or_rest upper f end) (and_sound f ts)
          (λ a mid d.
            Returns-map (λ b left. OrRestAt upper end a b mid left)
              (λ b left. OrAt upper end b ts left) (parse_or_rest upper f end a mid)
              (or_rest_sound f a mid) (λ b left r. or_at a b ts mid left d r))

    or_rest_sound :
        (f : ℕ) (a : AstNode N) (ts : List (Token N))
        → Returns (λ b left. OrRestAt upper end a b ts left) (parse_or_rest upper f end a ts)
    or_rest_sound zero a ts = tt
    or_rest_sound (suc f) a ts = elim (Bool-cases (is_keyword upper "OR" ts)) [
      | inr e ↦ rw (parse_or_rest, e) (or_end a ts e)
      | inl e ↦
          rw (parse_or_rest, e)
            (Returns-and_then (λ b mid. AndAt upper end b (rest ts) mid)
              (λ c left. OrRestAt upper end a c ts left) (parse_and upper f end (rest ts))
              (λ b. parse_or_rest upper f end (either a b)) (and_sound f (rest ts))
              (λ b mid d.
                Returns-map (λ c left. OrRestAt upper end (either a b) c mid left)
                  (λ c left. OrRestAt upper end a c ts left)
                  (parse_or_rest upper f end (either a b) mid) (or_rest_sound f (either a b) mid)
                  (λ c left r. or_more a b c ts mid left e d r)))
    ]

    and_sound :
        (f : ℕ) (ts : List (Token N))
        → Returns (λ a left. AndAt upper end a ts left) (parse_and upper f end ts)
    and_sound zero ts = tt
    and_sound (suc f) ts =
        Returns-and_then (λ a mid. UnaryAt upper end a ts mid) (λ a left. AndAt upper end a ts left)
          (parse_unary upper f end ts) (parse_and_rest upper f end) (unary_sound f ts)
          (λ a mid d.
            Returns-map (λ b left. AndRestAt upper end a b mid left)
              (λ b left. AndAt upper end b ts left) (parse_and_rest upper f end a mid)
              (and_rest_sound f a mid) (λ b left r. and_at a b ts mid left d r))

    and_rest_sound :
        (f : ℕ) (a : AstNode N) (ts : List (Token N))
        → Returns (λ b left. AndRestAt upper end a b ts left) (parse_and_rest upper f end a ts)
    and_rest_sound zero a ts = tt
    and_rest_sound (suc f) a ts = elim (Bool-cases (is_keyword upper "AND" ts)) [
      | inr e ↦ rw (parse_and_rest, e) (and_end a ts e)
      | inl e ↦
          rw (parse_and_rest, e)
            (Returns-and_then (λ b mid. UnaryAt upper end b (rest ts) mid)
              (λ c left. AndRestAt upper end a c ts left) (parse_unary upper f end (rest ts))
              (λ b. parse_and_rest upper f end (both a b)) (unary_sound f (rest ts))
              (λ b mid d.
                Returns-map (λ c left. AndRestAt upper end (both a b) c mid left)
                  (λ c left. AndRestAt upper end a c ts left)
                  (parse_and_rest upper f end (both a b) mid) (and_rest_sound f (both a b) mid)
                  (λ c left r. and_more a b c ts mid left e d r)))
    ]

    unary_sound :
        (f : ℕ) (ts : List (Token N))
        → Returns (λ a left. UnaryAt upper end a ts left) (parse_unary upper f end ts)
    unary_sound zero ts = tt
    unary_sound (suc f) ts =
        let P : AstNode N → List (Token N) → Type 0 = λ a left. UnaryAt upper end a ts left in
        elim (Bool-cases (is_keyword upper "NOT" ts)) [
          | inl e ↦
              rw (parse_unary, e)
                (Returns-negate (λ a left. UnaryAt upper end a (rest ts) left) P
                  (parse_unary upper f end (rest ts)) (unary_sound f (rest ts))
                  (λ a left d. not_at a ts left e d))
          | inr e ↦ elim (Bool-cases (is_keyword upper "SUSTAIN" ts && is_punct "(" (rest ts))) [
            | inl e' ↦
                rw (parse_unary, e, e')
                  (Returns-and_then (λ a mid. OrAt upper end a (rest (rest ts)) mid) P
                    (parse_or upper f end (rest (rest ts))) (parse_days upper end)
                    (or_sound f (rest (rest ts))) (λ a more d. sustain_sound ts more a e e' d))
            | inr e' ↦ elim (Bool-cases (is_punct "(" ts)) [
              | inl p ↦
                  rw (parse_unary, e, e', p)
                    (Returns-and_then (λ a mid. OrAt upper end a (rest ts) mid) P
                      (parse_or upper f end (rest ts)) (closed end) (or_sound f (rest ts))
                      (λ a more d. paren_sound ts more a e e' p d))
              | inr p ↦ rw (parse_unary, e, e', p) (comparison_sound ts e e' p)
            ]
          ]
        ]

  -- A tree that `parse` returns has been read with every token, as the grammar has it.
  pub parse_sound :
      (a : AstNode N) (ts : List (Token N)) → parse upper end ts ≡ ok a [] → OrAt upper end a ts []
  unfolding parse
  parse_sound a ts h =
      Returns-at_end (λ b left. OrAt upper end b ts left) a
        (parse_or upper (enough_fuel upper ts) end ts) (or_sound (enough_fuel upper ts) ts) h

  pub parse_complete :
      (a : AstNode N) (ts : List (Token N)) → OrAt upper end a ts [] → parse upper end ts ≡ ok a []
  unfolding parse
  parse_complete a ts d =
      rw (or_complete upper end (enough_fuel upper ts) a ts [] d (omega arith)) refl

  -- `parse` returns a tree exactly where the grammar has that tree for the whole list of tokens.
  pub parse_iff :
      (a : AstNode N) (ts : List (Token N))
      → (parse upper end ts ≡ ok a [] → OrAt upper end a ts [])
        × (OrAt upper end a ts [] → parse upper end ts ≡ ok a [])
  parse_iff a ts = (parse_sound a ts, parse_complete a ts)

  -- A list of tokens is a spelling of at most one tree.
  pub tree_unique :
      (a b : AstNode N) (ts : List (Token N))
      → OrAt upper end a ts []
      → OrAt upper end b ts []
      → a ≡ b
  tree_unique a b ts d d' = ap (tree_or a) (sym (parse_complete a ts d) ∙ parse_complete b ts d')
