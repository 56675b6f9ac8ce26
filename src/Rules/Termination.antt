-- ===== src/Rules/Termination.antt =====
-- The parser gets enough fuel (apps/datacore/src/ruledsl.ts, `Parser`).
use complete.Base.{
  inl, inr, ◌⊎◌, ℕ, zero, suc, ◌+◌, ◌*◌, ◌≤◌, ◌<◌, String, true, not, ◌&&◌, List, [], ◌∷◌, ◌≡◌,
  refl, arith, length, Bool-cases, if◌then◌else◌,
}
use complete.Rules.{
  Numbers, AstNode, both, either, sustain, Token, sustain_shape, sustain_days, sustain_close,
  trailing_tokens, DslError,
}
use complete.Rules.Parser.{
  Parsed, ok, failed, out_of_fuel, position, is_punct, rest, is_keyword, parse_days, closed,
  and_then, parse_or, parse_or_rest, parse_and, parse_and_rest, parse_unary, parse, at_end,
  enough_fuel, whole_days,
}
use complete.Rules.Fuel.{
  fits, fits-le, fits-and_then, fits-negate, rest-le, fits-if, fits-ok, parse_comparison-fits,
  form_case, is_ident, is_num, is_str, is_op, is_a_punct, is_userref,
}

module _ {N : Type 0} where
  closed-fits :
      (n end : ℕ) (a : AstNode N) (ts : List (Token N))
      → length ts ≤ n
      → fits n (closed end a ts) ≡ true
  closed-fits n end a ts le = ground (arith, rest-le ts)

  pub keyword-rest :
      (upper : String → String) (kw : String) (ts : List (Token N))
      → is_keyword upper kw ts ≡ true
      → length (rest ts) < length ts
  keyword-rest upper kw [] e = absurd (cc)
  keyword-rest upper kw (t ∷ ts) e = omega arith

  pub punct-rest :
      (v : String) (ts : List (Token N)) → is_punct v ts ≡ true → length (rest ts) < length ts
  punct-rest v [] e = absurd (cc)
  punct-rest v (t ∷ ts) e = omega arith

module _ (N : Type 0) (upper : String → String) ⦃numbers : Numbers N⦄ where
  wrong :
      (n : ℕ) (t t' : Token N) (ts : List (Token N))
      → fits {N = N} {A = AstNode N} n (
          if not (is_punct "," (t ∷ (t' ∷ ts)))
          then failed sustain_shape t.pos
          else failed sustain_days t'.pos)
        ≡ true
  wrong n t t' ts =
      fits-if {N = N} {A = AstNode N} n (not (is_punct "," (t ∷ (t' ∷ ts))))
        (failed sustain_shape t.pos) (failed sustain_days t'.pos) refl refl

  parse_days-fits :
      (n end : ℕ) (a : AstNode N) (ts : List (Token N))
      → length ts ≤ n
      → fits n (parse_days upper end a ts) ≡ true
  unfolding parse_days
  parse_days-fits n end a [] le = refl
  parse_days-fits n end a (t ∷ []) le = ground arith
  parse_days-fits n end a (t ∷ (t' ∷ ts)) le = elim (form_case t'.form) [
    | is_num v e ↦ rw e (
        fits-if n (not (is_punct "," (t ∷ (t' ∷ ts)))) (failed sustain_shape t.pos)
          (if is_punct ")" ts
            then ok (sustain a (whole_days upper v)) (rest ts)
            else failed sustain_close (position end ts))
          refl
          (fits-if n (is_punct ")" ts) (ok (sustain a (whole_days upper v)) (rest ts))
            (failed sustain_close (position end ts))
            (fits-ok n (sustain a (whole_days upper v)) (rest ts) (omega (arith, rest-le ts)))
            refl))
    | is_ident v e ↦ rw e (wrong n t t' ts)
    | is_str v e ↦ rw e (wrong n t t' ts)
    | is_op v e ↦ rw e (wrong n t t' ts)
    | is_a_punct v e ↦ rw e (wrong n t t' ts)
    | is_userref v e ↦ rw e (wrong n t t' ts)
  ]

  -- Fuel for each of the parsing functions.
  unfoldable pub IsEnough : ℕ → Type 0
  IsEnough f =
      ((end : ℕ) (ts : List (Token N))
        → 6 * length ts + 6 ≤ f
        → fits (length ts) (parse_or upper f end ts) ≡ true)
      × (((end : ℕ) (a : AstNode N) (ts : List (Token N))
            → 6 * length ts + 1 ≤ f
            → fits (length ts) (parse_or_rest upper f end a ts) ≡ true)
          × (((end : ℕ) (ts : List (Token N))
                → 6 * length ts + 5 ≤ f
                → fits (length ts) (parse_and upper f end ts) ≡ true)
              × (((end : ℕ) (a : AstNode N) (ts : List (Token N))
                    → 6 * length ts + 1 ≤ f
                    → fits (length ts) (parse_and_rest upper f end a ts) ≡ true)
                  × ((end : ℕ) (ts : List (Token N))
                      → 6 * length ts + 4 ≤ f
                      → fits (length ts) (parse_unary upper f end ts) ≡ true))))

  unary-step :
      (f : ℕ)
      → ((end : ℕ) (ts : List (Token N))
          → 6 * length ts + 6 ≤ f
          → fits (length ts) (parse_or upper f end ts) ≡ true)
      → ((end : ℕ) (ts : List (Token N))
          → 6 * length ts + 4 ≤ f
          → fits (length ts) (parse_unary upper f end ts) ≡ true)
      → (end : ℕ) (ts : List (Token N)) → 6 * length ts + 4 ≤ suc f
      → fits (length ts) (parse_unary upper (suc f) end ts) ≡ true
  unfolding parse_or
  unary-step f ors unary end ts le = elim (Bool-cases (is_keyword upper "NOT" ts)) [
    | inl e ↦
        rw (parse_unary, e)
          (let fewer = keyword-rest upper "NOT" ts e in
            fits-negate (length ts) (parse_unary upper f end (rest ts)) (
              fits-le (length (rest ts)) (length ts) (parse_unary upper f end (rest ts))
                (omega arith) (unary end (rest ts) (omega arith))))
    | inr e ↦ elim (Bool-cases (is_keyword upper "SUSTAIN" ts && is_punct "(" (rest ts))) [
      | inl e' ↦
          rw (parse_unary, e, e')
            (let fewer = keyword-rest upper "SUSTAIN" ts (ground (arith, e')) in
              let fewer' = rest-le (rest ts) in
              fits-and_then (length ts) (length ts) (parse_or upper f end (rest (rest ts)))
                (parse_days upper end)
                (fits-le (length (rest (rest ts))) (length ts)
                  (parse_or upper f end (rest (rest ts))) (omega arith)
                  (ors end (rest (rest ts)) (omega arith)))
                (λ a ts' le'. parse_days-fits (length ts) end a ts' le'))
      | inr e' ↦ elim (Bool-cases (is_punct "(" ts)) [
        | inl p ↦
            rw (parse_unary, e, e', p)
              (let fewer = punct-rest "(" ts p in
                fits-and_then (length ts) (length ts) (parse_or upper f end (rest ts)) (closed end)
                  (fits-le (length (rest ts)) (length ts) (parse_or upper f end (rest ts))
                    (omega arith) (ors end (rest ts) (omega arith)))
                  (λ a ts' le'. closed-fits (length ts) end a ts' le'))
        | inr p ↦ rw (parse_unary, e, e', p) (parse_comparison-fits upper end ts)
      ]
    ]
  ]

  IsEnough-step : (f : ℕ) → IsEnough f → IsEnough (suc f)
  unfolding IsEnough parse_or
  IsEnough-step f (ors, (or_rest, (ands, (and_rest, unary)))) = (
    (λ end ts le.
        fits-and_then (length ts) (length ts) (parse_and upper f end ts) (parse_or_rest upper f end)
          (ands end ts (omega arith))
          (λ a ts' le'.
            fits-le (length ts') (length ts) (parse_or_rest upper f end a ts') le'
              (or_rest end a ts' (omega arith)))),
    (
      (λ end a ts le. elim (Bool-cases (is_keyword upper "OR" ts)) [
        | inl e ↦
            rw (parse_or_rest, e)
              (let fewer = keyword-rest upper "OR" ts e in
                fits-and_then (length (rest ts)) (length ts) (parse_and upper f end (rest ts))
                  (λ right. parse_or_rest upper f end (either a right))
                  (ands end (rest ts) (omega arith))
                  (λ b ts' le'.
                    fits-le (length ts') (length ts) (parse_or_rest upper f end (either a b) ts')
                      (omega arith) (or_rest end (either a b) ts' (omega arith))))
        | inr e ↦ rw (parse_or_rest, e) (fits-ok (length ts) a ts (omega arith))
      ]),
      (
        (λ end ts le.
            fits-and_then (length ts) (length ts) (parse_unary upper f end ts)
              (parse_and_rest upper f end) (unary end ts (omega arith))
              (λ a ts' le'.
                fits-le (length ts') (length ts) (parse_and_rest upper f end a ts') le'
                  (and_rest end a ts' (omega arith)))),
        (
          (λ end a ts le. elim (Bool-cases (is_keyword upper "AND" ts)) [
            | inl e ↦
                rw (parse_and_rest, e)
                  (let fewer = keyword-rest upper "AND" ts e in
                    fits-and_then (length (rest ts)) (length ts) (parse_unary upper f end (rest ts))
                      (λ right. parse_and_rest upper f end (both a right))
                      (unary end (rest ts) (omega arith))
                      (λ b ts' le'.
                        fits-le (length ts') (length ts) (parse_and_rest upper f end (both a b) ts')
                          (omega arith) (and_rest end (both a b) ts' (omega arith))))
            | inr e ↦ rw (parse_and_rest, e) (fits-ok (length ts) a ts (omega arith))
          ]),
          (λ end ts le. unary-step f ors unary end ts le),
        ),
      ),
    ),
  )

  pub IsEnough-all : (f : ℕ) → IsEnough f
  unfolding IsEnough parse_or
  IsEnough-all zero = (
    (λ end ts le. absurd (omega arith)),
    (
      (λ end a ts le. absurd (omega arith)),
      (
        (λ end ts le. absurd (omega arith)),
        ((λ end a ts le. absurd (omega arith)), (λ end ts le. absurd (omega arith))),
      ),
    ),
  )
  IsEnough-all (suc f) = IsEnough-step f (IsEnough-all f)

  -- What is parsed to its end.
  whole :
      (n : ℕ) (r : Parsed N (AstNode N))
      → fits n r ≡ true
      → ((a : AstNode N) × (and_then r at_end ≡ ok a []))
        ⊎ ((e : DslError) × (p : ℕ) × (and_then r at_end ≡ failed e p))
  whole n (ok a []) h = inl (a, refl)
  whole n (ok a (t ∷ ts)) h = inr (trailing_tokens, t.pos, refl)
  whole n (failed e p) h = inr (e, p, refl)
  whole n out_of_fuel h = absurd (cc)

  -- Parsing ends, on any tokens: the fuel that `parse` starts with is never used up, and it comes to a
  -- tree with every token read, or to an error with its place.
  pub parse_total :
      (end : ℕ) (ts : List (Token N))
      → ((a : AstNode N) × (parse upper end ts ≡ ok a []))
        ⊎ ((e : DslError) × (p : ℕ) × (parse upper end ts ≡ failed e p))
  unfolding parse IsEnough
  parse_total end ts =
      whole (length ts) (parse_or upper (enough_fuel upper ts) end ts)
        ((IsEnough-all (enough_fuel upper ts)).0 end ts (omega arith))
