-- ===== src/Rules/Grammar.antt =====
-- The grammar that the header of apps/datacore/src/ruledsl.ts gives, as derivations: `XAt a ts rest`
-- says that the tokens `ts` begin with a spelling of `a`, and `rest` is what follows. The chains of OR
-- and AND associate to the left and are as long as they can be. Operands are read by `parse_operand`.
use complete.Base.{ℕ, String, true, false, ◌&&◌, List, ◌∷◌, ◌≡◌}
use complete.Rules.{
  Numbers, CmpOp, is_in, Operand, AstNode, both, either, negated, cmp, sustain, ident, num, op,
  punct, Token,
}
use complete.Rules.Parser.{ok, is_punct, is_keyword, rest, parse_operand, whole_days}

module _ {N : Type 0} (upper : String → String) ⦃n : Numbers N⦄ (end : ℕ) where
  -- The sign of a comparison.
  pub data SignAt : CmpOp → Token N → Type 0 where
    sign : {t : Token N} {o : CmpOp} → t.form ≡ op o → SignAt o t
    in_sign : {t : Token N} (v : String) → t.form ≡ ident v → upper v ≡ "IN" → SignAt is_in t

  mutual
    pub data OrAt : AstNode N → List (Token N) → List (Token N) → Type 0 where
      or_at :
          (a b : AstNode N) (ts mid left : List (Token N))
          → AndAt a ts mid
          → OrRestAt a b mid left
          → OrAt b ts left

    -- What follows the operand `a` on the left, which together is `b`.
    pub data OrRestAt : AstNode N → AstNode N → List (Token N) → List (Token N) → Type 0 where
      or_end :
          (a : AstNode N) (ts : List (Token N))
          → is_keyword upper "OR" ts ≡ false
          → OrRestAt a a ts ts
      or_more :
          (a b c : AstNode N) (ts mid left : List (Token N))
          → is_keyword upper "OR" ts ≡ true
          → AndAt b (rest ts) mid
          → OrRestAt (either a b) c mid left
          → OrRestAt a c ts left

    pub data AndAt : AstNode N → List (Token N) → List (Token N) → Type 0 where
      and_at :
          (a b : AstNode N) (ts mid left : List (Token N))
          → UnaryAt a ts mid
          → AndRestAt a b mid left
          → AndAt b ts left

    pub data AndRestAt : AstNode N → AstNode N → List (Token N) → List (Token N) → Type 0 where
      and_end :
          (a : AstNode N) (ts : List (Token N))
          → is_keyword upper "AND" ts ≡ false
          → AndRestAt a a ts ts
      and_more :
          (a b c : AstNode N) (ts mid left : List (Token N))
          → is_keyword upper "AND" ts ≡ true
          → UnaryAt b (rest ts) mid
          → AndRestAt (both a b) c mid left
          → AndRestAt a c ts left

    pub data UnaryAt : AstNode N → List (Token N) → List (Token N) → Type 0 where
      not_at :
          (a : AstNode N) (ts left : List (Token N))
          → is_keyword upper "NOT" ts ≡ true
          → UnaryAt a (rest ts) left
          → UnaryAt (negated a) ts left
      -- SUSTAIN ( condition , days )
      sustain_at :
          (a : AstNode N) (comma days close : Token N) (v : N) (ts left : List (Token N))
          → is_keyword upper "NOT" ts ≡ false
          → is_keyword upper "SUSTAIN" ts && is_punct "(" (rest ts) ≡ true
          → OrAt a (rest (rest ts)) (comma ∷ (days ∷ (close ∷ left)))
          → comma.form ≡ punct ","
          → days.form ≡ num v
          → close.form ≡ punct ")"
          → UnaryAt (sustain a (whole_days upper v)) ts left
      paren_at :
          (a : AstNode N) (close : Token N) (ts left : List (Token N))
          → is_keyword upper "NOT" ts ≡ false
          → is_keyword upper "SUSTAIN" ts && is_punct "(" (rest ts) ≡ false
          → is_punct "(" ts ≡ true
          → OrAt a (rest ts) (close ∷ left)
          → close.form ≡ punct ")"
          → UnaryAt a ts left
      cmp_at :
          (o : CmpOp) (l r : Operand N) (t : Token N) (ts mid left : List (Token N))
          → is_keyword upper "NOT" ts ≡ false
          → is_keyword upper "SUSTAIN" ts && is_punct "(" (rest ts) ≡ false
          → is_punct "(" ts ≡ false
          → parse_operand upper end ts ≡ ok l (t ∷ mid)
          → SignAt o t
          → parse_operand upper end mid ≡ ok r left
          → UnaryAt (cmp o l r) ts left
