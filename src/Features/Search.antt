-- ===== src/Features/Search.antt =====
-- The search of a cascade (apps/datacore/src/features.ts, `cascade`): it ends, and finds no less where
-- more features are on and fewer have been seen.
use complete.Base.{
  inl, inr, ℕ, zero, suc, ◌≤◌, ◌<◌, String, Bool, true, false, not, List, [], ◌∷◌, ◌≡◌, refl, arith,
  str_eq, eq_iff, filter, length, leb, Bool-cases, sym, ◌≢◌, leb→le, length-filter,
}
use complete.Features.Registry.{FeatureDef}
use complete.Features.Cascade.{has, parents, Visit, visited, off, exhausted, and_on, all_on, is_on}

abbrev pub IsSubset : List String → List String → Type 0
IsSubset ks ls = (k : String) → has k ks ≡ true → has k ls ≡ true

abbrev fresh : List String → List String → ℕ
fresh on seen = length (filter (λ k. not (has k seen)) on)

fresh-subset : (on seen seen' : List String) → IsSubset seen seen' → fresh on seen' ≤ fresh on seen
fresh-subset [] seen seen' h = omega arith
fresh-subset (k ∷ on) seen seen' h = ground (arith, h k, fresh-subset on seen seen' h)

IsSubset-cons : (k : String) (seen : List String) → IsSubset seen (k ∷ seen)
IsSubset-cons k seen l h = ground arith

fresh-cons :
    (on seen : List String) (k : String)
    → has k on ≡ true
    → has k seen ≡ false
    → fresh on (k ∷ seen) < fresh on seen
fresh-cons [] seen k e e' = absurd (cc)
fresh-cons (l ∷ on) seen k e e' = elim (Bool-cases (str_eq k l)) [
  | inl same ↦
      let fewer = fresh-subset on seen (k ∷ seen) (IsSubset-cons k seen) in
      let e : k ≡ l = (eq_iff k l).0 same in
      let gone : has l seen ≡ false = rw (← e) e' in
      let now : str_eq l k ≡ true = (eq_iff l k).1 (sym e) in rw (gone, now) (omega (arith, fewer))
  | inr other ↦
      let ih = fresh-cons on seen k (ground arith) e' in
      let differs : str_eq l k ≡ false = ground (arith, eq_iff k l, eq_iff l k) in
      elim (Bool-cases (has l seen)) [
        | inl h ↦ rw (differs, h) ih
        | inr h ↦ rw (differs, h) (omega (arith, ih))
      ]
]

-- A visit that came to an end, with what is left of the features.
abbrev ends : List String → ℕ → Visit → Bool
ends on n (visited seen) = leb (fresh on seen) n
ends on n off = true
ends on n exhausted = false

ends-le : (on : List String) (m n : ℕ) (v : Visit) → m ≤ n → ends on m v ≡ true → ends on n v ≡ true
ends-le on m n (visited seen) le e = ground arith
ends-le on m n off le e = refl
ends-le on m n exhausted le e = e

and_on-ends :
    (on : List String) (n m : ℕ) (v : Visit) (k : List String → Visit)
    → m ≤ n
    → ends on m v ≡ true
    → ((seen : List String) → fresh on seen ≤ n → ends on (fresh on seen) (k seen) ≡ true)
    → ends on m (and_on v k) ≡ true
and_on-ends on n m (visited seen) k le e next =
    let small : fresh on seen ≤ m = leb→le (fresh on seen) m e in
    ends-le on (fresh on seen) m (k seen) small (next seen (omega (arith, small)))
and_on-ends on n m off k le e next = refl
and_on-ends on n m exhausted k le e next = e

all_on-ends :
    (on : List String) (n : ℕ) (go : String → List String → Visit)
    → ((p : String) (seen : List String)
        → fresh on seen ≤ n
        → ends on (fresh on seen) (go p seen) ≡ true)
    → (ps seen : List String) → fresh on seen ≤ n
    → ends on (fresh on seen) (all_on go ps seen) ≡ true
all_on-ends on n go h [] seen le = ground arith
all_on-ends on n go h (p ∷ ps) seen le =
    and_on-ends on n (fresh on seen) (go p seen) (all_on go ps) le (h p seen le)
      (λ s le'. all_on-ends on n go h ps s le')

module _ (registry : List FeatureDef) where
  is_on-ends :
      (f : ℕ) (on : List String) (key : String) (seen : List String)
      → fresh on seen < f
      → ends on (fresh on seen) (is_on registry f on key seen) ≡ true
  unfolding is_on
  is_on-ends zero on key seen lt = absurd (omega arith)
  is_on-ends (suc f) on key seen lt = elim (Bool-cases (has key seen)) [
    | inl e ↦ rw e refl
    | inr e ↦ elim (Bool-cases (has key on)) [
      | inr e' ↦ rw (e, e') refl
      | inl e' ↦
          let fewer = fresh-cons on seen key e' e in
          rw (e, e')
            (ends-le on (fresh on (key ∷ seen)) (fresh on seen)
              (all_on (is_on registry f on) (parents registry key) (key ∷ seen))
              (omega (arith, fewer))
              (all_on-ends on (fresh on (key ∷ seen)) (is_on registry f on)
                (λ p s le. is_on-ends f on p s (omega (arith, fewer, le))) (parents registry key)
                (key ∷ seen) (omega arith)))
    ]
  ]

  -- The search from a feature ends, with the fuel of the cascade.
  pub is_on_total :
      (on : List String) (key : String) → is_on registry (suc (length on)) on key [] ≢ exhausted
  is_on_total on key e =
      let end_of =
        is_on-ends (suc (length on)) on key [] (omega (arith, length-filter (λ k. true) on)) in
      let e' = rw e at end_of in cc
