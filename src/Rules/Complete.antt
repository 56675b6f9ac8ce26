-- ===== src/Rules/Complete.antt =====
-- The parser (apps/datacore/src/ruledsl.ts, `Parser`) finds every tree that the grammar has.
use complete.Base.{ℕ, zero, suc, ◌+◌, ◌*◌, ◌≤◌, String, List, ◌∷◌, ◌≡◌, refl, arith, length}
use complete.Rules.{Numbers, AstNode, both, either, cmp, sustain, num, punct, Token, CmpOp, Operand}
use complete.Rules.Parser.{
  ok, rest, parse_days, parse_or, parse_or_rest, parse_and, parse_and_rest, parse_unary, whole_days,
  parse_operator, parse_operand, parse_comparison,
}
use complete.Rules.Fuel.{rest-le}
use complete.Rules.Termination.{keyword-rest, punct-rest, IsEnough, IsEnough-all}
use complete.Rules.Grammar.{
  SignAt, sign, in_sign, OrAt, or_at, OrRestAt, or_end, or_more, AndAt, and_at, AndRestAt, and_end,
  and_more, UnaryAt, not_at, sustain_at, paren_at, cmp_at,
}

module _ {N : Type 0} (upper : String → String) ⦃n : Numbers N⦄ (end : ℕ) where
  and-shrinks :
      (f : ℕ) (a : AstNode N) (ts mid : List (Token N))
      → 6 * length ts + 5 ≤ f
      → parse_and upper f end ts ≡ ok a mid
      → length mid ≤ length ts
  unfolding IsEnough
  and-shrinks f a ts mid le e =
      let small = (IsEnough-all N upper f).1.1.0 end ts le in ground (arith, e, small)

  unary-shrinks :
      (f : ℕ) (a : AstNode N) (ts mid : List (Token N))
      → 6 * length ts + 4 ≤ f
      → parse_unary upper f end ts ≡ ok a mid
      → length mid ≤ length ts
  unfolding IsEnough
  unary-shrinks f a ts mid le e =
      let small = (IsEnough-all N upper f).1.1.1.1 end ts le in ground (arith, e, small)

  days_complete :
      (a : AstNode N) (comma days close : Token N) (v : N) (left : List (Token N))
      → comma.form ≡ punct ","
      → days.form ≡ num v
      → close.form ≡ punct ")"
      → parse_days upper end a (comma ∷ (days ∷ (close ∷ left)))
        ≡ ok (sustain a (whole_days upper v)) left
  unfolding parse_days
  days_complete a comma days close v left e d c = rw (e, d, c) refl

  operator_complete :
      (o : CmpOp) (l r : Operand N) (t : Token N) (mid left : List (Token N))
      → SignAt upper end o t
      → parse_operand upper end mid ≡ ok r left
      → parse_operator upper end l (t ∷ mid) ≡ ok (cmp o l r) left
  unfolding parse_operator
  operator_complete o l r t mid left (sign e) h = rw (e, h) refl
  operator_complete o l r t mid left (in_sign v e u) h = rw (e, u, h) refl

  comparison_complete :
      (o : CmpOp) (l r : Operand N) (t : Token N) (ts mid left : List (Token N))
      → parse_operand upper end ts ≡ ok l (t ∷ mid)
      → SignAt upper end o t
      → parse_operand upper end mid ≡ ok r left
      → parse_comparison upper end ts ≡ ok (cmp o l r) left
  unfolding parse_comparison
  comparison_complete o l r t ts mid left h s k =
      rw (parse_comparison, h) (operator_complete o l r t mid left s k)

  mutual
    unfolding parse_or

    pub or_complete :
        (f : ℕ) (a : AstNode N) (ts left : List (Token N))
        → OrAt upper end a ts left
        → 6 * length ts + 6 ≤ f
        → parse_or upper f end ts ≡ ok a left
    or_complete zero a ts left d le = absurd (omega arith)
    or_complete (suc f) _ _ _ (or_at a b ts mid left d r) le =
        let first = and_complete f a ts mid d (omega arith) in
        rw first (
          or_rest_complete f a b mid left r
            (omega (arith, and-shrinks f a ts mid (omega arith) first)))

    or_rest_complete :
        (f : ℕ) (a b : AstNode N) (ts left : List (Token N))
        → OrRestAt upper end a b ts left
        → 6 * length ts + 1 ≤ f
        → parse_or_rest upper f end a ts ≡ ok b left
    or_rest_complete zero a b ts left d le = absurd (omega arith)
    or_rest_complete (suc f) _ _ _ _ (or_end a ts e) le = rw (parse_or_rest, e) refl
    or_rest_complete (suc f) _ _ _ _ (or_more a b c ts mid left e d r) le =
        let fewer = keyword-rest upper "OR" ts e in
        let next = and_complete f b (rest ts) mid d (omega arith) in
        let small = and-shrinks f b (rest ts) mid (omega arith) next in
        rw (parse_or_rest, e, next) (or_rest_complete f (either a b) c mid left r (omega arith))

    and_complete :
        (f : ℕ) (a : AstNode N) (ts left : List (Token N))
        → AndAt upper end a ts left
        → 6 * length ts + 5 ≤ f
        → parse_and upper f end ts ≡ ok a left
    and_complete zero a ts left d le = absurd (omega arith)
    and_complete (suc f) _ _ _ (and_at a b ts mid left d r) le =
        let first = unary_complete f a ts mid d (omega arith) in
        rw first (
          and_rest_complete f a b mid left r
            (omega (arith, unary-shrinks f a ts mid (omega arith) first)))

    and_rest_complete :
        (f : ℕ) (a b : AstNode N) (ts left : List (Token N))
        → AndRestAt upper end a b ts left
        → 6 * length ts + 1 ≤ f
        → parse_and_rest upper f end a ts ≡ ok b left
    and_rest_complete zero a b ts left d le = absurd (omega arith)
    and_rest_complete (suc f) _ _ _ _ (and_end a ts e) le = rw (parse_and_rest, e) refl
    and_rest_complete (suc f) _ _ _ _ (and_more a b c ts mid left e d r) le =
        let fewer = keyword-rest upper "AND" ts e in
        let next = unary_complete f b (rest ts) mid d (omega arith) in
        let small = unary-shrinks f b (rest ts) mid (omega arith) next in
        rw (parse_and_rest, e, next) (and_rest_complete f (both a b) c mid left r (omega arith))

    unary_complete :
        (f : ℕ) (a : AstNode N) (ts left : List (Token N))
        → UnaryAt upper end a ts left
        → 6 * length ts + 4 ≤ f
        → parse_unary upper f end ts ≡ ok a left
    unary_complete zero a ts left d le = absurd (omega arith)
    unary_complete (suc f) _ _ _ (not_at a ts left e d) le =
        let fewer = keyword-rest upper "NOT" ts e in
        let next = unary_complete f a (rest ts) left d (omega arith) in
        rw (parse_unary, e, next) refl
    unary_complete (suc f) _ _ _ (sustain_at a comma days close v ts left n1 y1 d c t e) le =
        let fewer = keyword-rest upper "SUSTAIN" ts (ground (arith, y1)) in
        let fewer' = rest-le (rest ts) in
        let next =
          or_complete f a (rest (rest ts)) (comma ∷ (days ∷ (close ∷ left))) d (omega arith) in
        rw (parse_unary, n1, y1, next) (days_complete a comma days close v left c t e)
    unary_complete (suc f) _ _ _ (paren_at a close ts left n1 n2 y1 d e) le =
        let fewer = punct-rest "(" ts y1 in
        let next = or_complete f a (rest ts) (close ∷ left) d (omega arith) in
        rw (parse_unary, n1, n2, y1, next, e) refl
    unary_complete (suc f) _ _ _ (cmp_at o l r t ts mid left n1 n2 n3 h s k) le =
        rw (parse_unary, n1, n2, n3) (comparison_complete o l r t ts mid left h s k)
