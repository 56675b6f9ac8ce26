-- ===== src/Rules/Fuel.antt =====
-- Termination of the parser (apps/datacore/src/ruledsl.ts, `Parser`): what each function leaves of the
-- tokens, and that the fuel that `parse` gives is enough.
use complete.Base.{
  inl, inr, ℕ, suc, ◌≤◌, String, Bool, true, false, List, [], ◌∷◌, ◌≡◌, refl, arith, length,
  Option-cases, if◌then◌else◌, str_eq, leb, filter, ◌||◌,
}
use complete.Json.{Json, Items, nil}
use complete.Rules.{
  array_element, unexpected_keyword, unexpected_token, expected_operator, is_in, CmpOp, Func,
  literal, Operand, AstNode, Form, ident, num, str, op, punct, userref, Token,
}
use complete.Rules.Parser.{
  Parsed, ok, failed, out_of_fuel, is_punct, rest, parse_array, parse_func, snoc, nonempty,
  drop_user, ident_operand, func_of, is_reserved, split_dots, parse_ident, parse_operand,
  parse_operator, parse_comparison, negate, and_then, compared,
}

module _ {N : Type 0} where
  -- A form, with its equation.
  pub data FormCase (f : Form N) : Type 0 where
    is_ident : (v : String) → f ≡ ident v → FormCase f
    is_num : (v : N) → f ≡ num v → FormCase f
    is_str : (v : String) → f ≡ str v → FormCase f
    is_op : (v : CmpOp) → f ≡ op v → FormCase f
    is_a_punct : (v : String) → f ≡ punct v → FormCase f
    is_userref : (v : String) → f ≡ userref v → FormCase f

  pub form_case : (f : Form N) → FormCase f
  form_case (ident v) = is_ident v refl
  form_case (num v) = is_num v refl
  form_case (str v) = is_str v refl
  form_case (op v) = is_op v refl
  form_case (punct v) = is_a_punct v refl
  form_case (userref v) = is_userref v refl

  -- There was fuel, and no more than `n` tokens are left.
  abbrev pub fits {ℓ} : {A : Type ℓ} → ℕ → Parsed N A → Bool
  fits n (ok a ts) = leb (length ts) n
  fits n (failed e p) = true
  fits n out_of_fuel = false

  pub fits-le {ℓ} :
      {A : Type ℓ} (m n : ℕ) (r : Parsed N A) → m ≤ n → fits m r ≡ true → fits n r ≡ true
  fits-le m n (ok a ts) le h = ground arith
  fits-le m n (failed e p) le h = refl
  fits-le m n out_of_fuel le h = h

  pub fits-and_then :
      (m n : ℕ) (r : Parsed N (AstNode N)) (k : AstNode N → List (Token N) → Parsed N (AstNode N))
      → fits m r ≡ true
      → ((a : AstNode N) (ts : List (Token N)) → length ts ≤ m → fits n (k a ts) ≡ true)
      → fits n (and_then r k) ≡ true
  fits-and_then m n (ok a ts) k h next = next a ts (ground arith)
  fits-and_then m n (failed e p) k h next = refl
  fits-and_then m n out_of_fuel k h next = absurd (cc)

  pub fits-negate : (n : ℕ) (r : Parsed N (AstNode N)) → fits n r ≡ true → fits n (negate r) ≡ true
  fits-negate n (ok a ts) h = h
  fits-negate n (failed e p) h = h
  fits-negate n out_of_fuel h = h

  pub rest-le : (ts : List (Token N)) → length (rest ts) ≤ length ts
  rest-le [] = omega arith
  rest-le (t ∷ ts) = omega arith

  pub fits-if {ℓ} :
      {A : Type ℓ} (n : ℕ) (b : Bool) (x y : Parsed N A)
      → fits n x ≡ true
      → fits n y ≡ true
      → fits n (if b then x else y) ≡ true
  fits-if n true x y h k = h
  fits-if n false x y h k = k

  pub fits-ok {ℓ} :
      {A : Type ℓ} (n : ℕ) (a : A) (ts : List (Token N)) → length ts ≤ n → fits n (ok a ts) ≡ true
  fits-ok n a ts le = ground arith

  parse_array-fits :
      (end : ℕ) (values : Items N) (ts : List (Token N))
      → fits (length ts) (parse_array end values ts) ≡ true
  unfolding parse_array
  parse_array-fits end values [] = refl
  parse_array-fits end values (t ∷ ts) =
      let more : (vs : Items N) → fits (suc (length ts)) (parse_array end vs ts) ≡ true = λ vs.
        fits-le (length ts) (suc (length ts)) (parse_array end vs ts) (omega arith)
          (parse_array-fits end vs ts) in
      let n = suc (length ts) in
      elim (form_case t.form) [
        | is_num v e ↦ rw e (more (snoc values (Json.num v)))
        | is_str v e ↦ rw e (more (snoc values (Json.str v)))
        | is_a_punct p e ↦ rw e (
            fits-if n (str_eq p "]") (ok (literal (Json.arr values)) ts)
              (if str_eq p "," then parse_array end values ts else failed array_element t.pos)
              (fits-ok n (literal (Json.arr values)) ts (omega arith))
              (fits-if n (str_eq p ",") (parse_array end values ts) (failed array_element t.pos)
                (more values) refl))
        | is_ident v e ↦ rw e refl
        | is_op v e ↦ rw e refl
        | is_userref v e ↦ rw e refl
      ]

  compared-fits :
      (n : ℕ) (o : CmpOp) (left : Operand N) (r : Parsed N (Operand N))
      → fits n r ≡ true
      → fits n (compared o left r) ≡ true
  compared-fits n o left (ok right ts) h = h
  compared-fits n o left (failed e p) h = h
  compared-fits n o left out_of_fuel h = h

  module _ (upper : String → String) where
    parse_func-fits :
        (end : ℕ) (name : Func) (ts : List (Token N))
        → fits (length ts) (parse_func upper end name ts) ≡ true
    unfolding parse_func
    parse_func-fits end name [] = refl
    parse_func-fits end name (t ∷ ts) = ground (arith, rest-le ts)

    parse_ident-fits :
        (end pos : ℕ) (v : String) (ts : List (Token N))
        → fits (length ts) (parse_ident upper end pos v ts) ≡ true
    unfolding parse_ident
    parse_ident-fits end pos v ts =
        let n = length ts in
        let u = upper v in
        let plain : Parsed N (Operand N) =
          if is_reserved u
          then failed unexpected_keyword pos
          else ok (ident_operand (split_dots v)) ts in
        let plain-fits : fits n plain ≡ true =
          fits-if n (is_reserved u) (failed unexpected_keyword pos)
            (ok (ident_operand (split_dots v)) ts) refl
            (fits-ok {A = Operand N} n (ident_operand (split_dots v)) ts (omega arith)) in
        fits-if n (str_eq u "TRUE" || str_eq u "FALSE")
          (ok (literal (Json.bool (str_eq u "TRUE"))) ts) _
          (fits-ok {A = Operand N} n (literal (Json.bool (str_eq u "TRUE"))) ts (omega arith))
          (fits-if n (str_eq u "NULL") (ok (literal Json.null) ts) _
            (fits-ok {A = Operand N} n (literal Json.null) ts (omega arith))
            (elim (Option-cases (func_of u)) [
              | inl e ↦ rw e plain-fits
              | inr (name, e) ↦ rw e (
                  fits-if n (is_punct "(" ts) (parse_func upper end name (rest ts)) plain
                    (fits-le (length (rest ts)) n (parse_func upper end name (rest ts)) (rest-le ts)
                      (parse_func-fits end name (rest ts)))
                    plain-fits)
            ]))

    parse_operand-fits :
        (end : ℕ) (ts : List (Token N)) → fits (length ts) (parse_operand upper end ts) ≡ true
    unfolding parse_operand
    parse_operand-fits end [] = refl
    parse_operand-fits end (t ∷ ts) =
        let n = suc (length ts) in
        elim (form_case t.form) [
          | is_num v e ↦ rw e (fits-ok n (literal (Json.num v)) ts (omega arith))
          | is_str v e ↦ rw e (fits-ok {A = Operand N} n (literal (Json.str v)) ts (omega arith))
          | is_userref v e ↦ rw e (
              fits-ok {A = Operand N} n (Operand.user (drop_user (filter nonempty (split_dots v))))
                ts (omega arith))
          | is_a_punct p e ↦ rw e (
              fits-if n (str_eq p "[") (parse_array end nil ts) (failed unexpected_token t.pos)
                (fits-le (length ts) n (parse_array end nil ts) (omega arith)
                  (parse_array-fits end nil ts))
                refl)
          | is_ident v e ↦ rw e (
              fits-le (length ts) n (parse_ident upper end t.pos v ts) (omega arith)
                (parse_ident-fits end t.pos v ts))
          | is_op v e ↦ rw e refl
        ]

    right-fits :
        (end : ℕ) (o : CmpOp) (left : Operand N) (ts : List (Token N))
        → fits (suc (length ts)) (compared o left (parse_operand upper end ts)) ≡ true
    right-fits end o left ts =
        fits-le (length ts) (suc (length ts)) (compared o left (parse_operand upper end ts))
          (omega arith)
          (compared-fits (length ts) o left (parse_operand upper end ts)
            (parse_operand-fits end ts))

    parse_operator-fits :
        (end : ℕ) (left : Operand N) (ts : List (Token N))
        → fits (length ts) (parse_operator upper end left ts) ≡ true
    unfolding parse_operator
    parse_operator-fits end left [] = refl
    parse_operator-fits end left (t ∷ ts) = elim (form_case t.form) [
      | is_op o e ↦ rw e (right-fits end o left ts)
      | is_ident v e ↦ rw e (
          fits-if (suc (length ts)) (str_eq (upper v) "IN")
            (compared is_in left (parse_operand upper end ts)) (failed expected_operator t.pos)
            (right-fits end is_in left ts) refl)
      | is_num v e ↦ rw e refl
      | is_str v e ↦ rw e refl
      | is_a_punct v e ↦ rw e refl
      | is_userref v e ↦ rw e refl
    ]

    operator_of-fits :
        (end n : ℕ) (r : Parsed N (Operand N))
        → fits n r ≡ true
        → fits n (elim r [
          | ok left ts' ↦ parse_operator upper end left ts'
          | failed e p ↦ failed e p
          | out_of_fuel ↦ out_of_fuel
        ])
          ≡ true
    operator_of-fits end n (ok left ts) h =
        fits-le (length ts) n (parse_operator upper end left ts) (ground arith)
          (parse_operator-fits end left ts)
    operator_of-fits end n (failed e p) h = h
    operator_of-fits end n out_of_fuel h = h

    pub parse_comparison-fits :
        (end : ℕ) (ts : List (Token N)) → fits (length ts) (parse_comparison upper end ts) ≡ true
    unfolding parse_comparison
    parse_comparison-fits end ts =
        operator_of-fits end (length ts) (parse_operand upper end ts) (parse_operand-fits end ts)
