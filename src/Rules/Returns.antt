-- ===== src/Rules/Returns.antt =====
-- What a parsing function (apps/datacore/src/ruledsl.ts, `Parser`) returns, when it returns something.
use text.Mathlib.TextEquality.{eq_iff}
use complete.Base.{
  String, Bool, true, false, List, [], ◌∷◌, ◌≡◌, refl, subst, ap, if◌then◌else◌, str_eq,
}
use complete.Rules.{
  AstNode, negated, cmp, Form, ident, num, op, punct, Token, CmpOp, Operand, str, userref,
}
use complete.Rules.Parser.{Parsed, ok, failed, out_of_fuel, and_then, at_end, compared, negate}

module _ {N : Type 0} where
  -- What is returned, when something is.
  abbrev pub Returns {ℓ} : {A : Type ℓ} → (A → List (Token N) → Type 0) → Parsed N A → Type 0
  Returns P (ok a ts) = P a ts
  Returns P (failed e p) = Unit
  Returns P out_of_fuel = Unit

  pub Returns-and_then :
      (P Q : AstNode N → List (Token N) → Type 0) (r : Parsed N (AstNode N))
      (k : AstNode N → List (Token N) → Parsed N (AstNode N))
      → Returns P r
      → ((a : AstNode N) (ts : List (Token N)) → P a ts → Returns Q (k a ts))
      → Returns Q (and_then r k)
  Returns-and_then P Q (ok a ts) k h next = next a ts h
  Returns-and_then P Q (failed e p) k h next = tt
  Returns-and_then P Q out_of_fuel k h next = tt

  pub Returns-map :
      (P Q : AstNode N → List (Token N) → Type 0) (r : Parsed N (AstNode N))
      → Returns P r
      → ((a : AstNode N) (ts : List (Token N)) → P a ts → Q a ts)
      → Returns Q r
  Returns-map P Q (ok a ts) h next = next a ts h
  Returns-map P Q (failed e p) h next = tt
  Returns-map P Q out_of_fuel h next = tt

  pub Returns-negate :
      (P Q : AstNode N → List (Token N) → Type 0) (r : Parsed N (AstNode N))
      → Returns P r
      → ((a : AstNode N) (ts : List (Token N)) → P a ts → Q (negated a) ts)
      → Returns Q (negate r)
  Returns-negate P Q (ok a ts) h next = next a ts h
  Returns-negate P Q (failed e p) h next = tt
  Returns-negate P Q out_of_fuel h next = tt

  pub Returns-compared :
      (Q : AstNode N → List (Token N) → Type 0) (o : CmpOp) (left : Operand N)
      (r : Parsed N (Operand N))
      → ((b : Operand N) (ts : List (Token N)) → r ≡ ok b ts → Q (cmp o left b) ts)
      → Returns Q (compared o left r)
  Returns-compared Q o left (ok b ts) next = next b ts refl
  Returns-compared Q o left (failed e p) next = tt
  Returns-compared Q o left out_of_fuel next = tt

  pub Returns-if :
      (Q : AstNode N → List (Token N) → Type 0) (b : Bool) (x y : Parsed N (AstNode N))
      → (b ≡ true → Returns Q x)
      → Returns Q y
      → Returns Q (if b then x else y)
  Returns-if Q true x y h k = h refl
  Returns-if Q false x y h k = k

  abbrev pub tree_or : AstNode N → Parsed N (AstNode N) → AstNode N
  tree_or a (ok b ts) = b
  tree_or a (failed e p) = a
  tree_or a out_of_fuel = a

  pub Returns-at_end :
      (P : AstNode N → List (Token N) → Type 0) (a : AstNode N) (r : Parsed N (AstNode N))
      → Returns P r
      → and_then r at_end ≡ ok a []
      → P a []
  Returns-at_end P a (ok b []) h e = subst (λ x. P x []) (ap (tree_or a) e) h
  Returns-at_end P a (ok b (t ∷ ts)) h e = absurd (cc)
  Returns-at_end P a (failed _ p) h e = absurd (cc)
  Returns-at_end P a out_of_fuel h e = absurd (cc)

  pub punct-form :
      (v : String) (f : Form N) → elim f [ punct w ↦ str_eq w v | _ ↦ false ] ≡ true → f ≡ punct v
  punct-form v (punct w) e = ap punct ((eq_iff w v).0 e)
  punct-form v (ident w) e = absurd (cc)
  punct-form v (num w) e = absurd (cc)
  punct-form v (str w) e = absurd (cc)
  punct-form v (op w) e = absurd (cc)
  punct-form v (userref w) e = absurd (cc)
