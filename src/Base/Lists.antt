-- ===== src/Base/Lists.antt =====
-- Lists measured by native numbers, Boolean quantifiers that compute, and predicates on lists.
use Prim.Native.Nat.{ℕ, suc, ◌+◌, ◌≤◌}
use mathlib.Core.Path.{◌≡◌, refl, sym, ◌∙◌}
use mathlib.Core.Logic.{◌⊎◌, ◌↔◌, inl, inr}
use mathlib.Core.Bool.{Bool, true, false, false≢true, ◌&&◌, ◌||◌}
use mathlib.Core.Option.{Option, none, some}
use mathlib.Core.List.{List, [], ◌∷◌, ◌++◌}
use native.Mathlib.Omega.{arith}
use complete.Base.Tests.{if◌then◌else◌, Bool-cases}

module _ {ℓ} {A : Type ℓ} where
  abbrev pub length : List A → ℕ
  length [] = 0
  length (x ∷ xs) = suc (length xs)

  -- `Array.prototype.some`, `every`, `filter` and `find`, by clauses so that they compute.
  abbrev pub any : (A → Bool) → List A → Bool
  any p [] = false
  any p (x ∷ xs) = p x || any p xs

  abbrev pub all : (A → Bool) → List A → Bool
  all p [] = true
  all p (x ∷ xs) = p x && all p xs

  abbrev pub filter : (A → Bool) → List A → List A
  filter p [] = []
  filter p (x ∷ xs) = let rest = filter p xs in if p x then x ∷ rest else rest

  abbrev pub find? : (A → Bool) → List A → Option A
  find? p [] = none
  find? p (x ∷ xs) = if p x then some x else find? p xs

  pub length-append : (xs ys : List A) → length (xs ++ ys) ≡ length xs + length ys
  length-append [] ys = omega arith
  length-append (x ∷ xs) ys = omega (arith, length-append xs ys)

  pub length-filter : (p : A → Bool) (xs : List A) → length (filter p xs) ≤ length xs
  length-filter p [] = omega arith
  length-filter p (x ∷ xs) = ground (arith, length-filter p xs)

abbrev pub All {ℓ κ} : {A : Type ℓ} → (A → Type κ) → List A → Type κ
All P [] = Unit
All P (x ∷ xs) = P x × All P xs

abbrev pub Any {ℓ} : {A : Type ℓ} → (A → Type 0) → List A → Type 0
Any P [] = ⊥
Any P (x ∷ xs) = P x ⊎ Any P xs

pub or_iff : (b c : Bool) → (b || c ≡ true) ↔ ((b ≡ true) ⊎ (c ≡ true))
or_iff b c = (λ e. ground arith, λ h. ground arith)

-- A test that decides a predicate decides it on lists, and finds what has it.
module _ {ℓ} {A : Type ℓ} (p : A → Bool) (P : A → Type 0)
    (decides : (x : A) → (p x ≡ true) ↔ P x) where
  pub any_iff : (xs : List A) → (any p xs ≡ true) ↔ Any P xs
  any_iff [] = (λ e. absurd (false≢true e), λ h. absurd h)
  any_iff (x ∷ xs) =
      let split = or_iff (p x) (any p xs) in
      (
        λ e. elim (split.0 e) [ inl h ↦ inl ((decides x).0 h) | inr h ↦ inr ((any_iff xs).0 h) ],
        λ h. split.1 (elim h [ inl k ↦ inl ((decides x).1 k) | inr k ↦ inr ((any_iff xs).1 k) ]),
      )

  pub find?-cases :
      (xs : List A)
      → ((find? p xs ≡ none) × (Any P xs → ⊥)) ⊎ ((x : A) × (find? p xs ≡ some x) × Any P xs)
  find?-cases [] = inl (refl, λ h. h)
  find?-cases (x ∷ xs) = elim (Bool-cases (p x)) [
    | inl e ↦ rw e (inr (x, refl, inl ((decides x).0 e)))
    | inr e ↦ rw e (elim (find?-cases xs) [
      | inl (absent, h) ↦ inl (
        absent,
        λ k. elim k [ inl here ↦ false≢true (sym e ∙ (decides x).1 here) | inr there ↦ h there ],
      )
      | inr (y, found, h) ↦ inr (y, found, inr h)
    ])
  ]

pub All-append {ℓ κ} :
    {A : Type ℓ} (P : A → Type κ) (xs ys : List A) → All P xs → All P ys → All P (xs ++ ys)
All-append P [] ys hx hy = hy
All-append P (x ∷ xs) ys hx hy = (hx.0, All-append P xs ys hx.1 hy)

pub All-map {ℓ κ ι} :
    {A : Type ℓ} (P : A → Type κ) (Q : A → Type ι) (f : (x : A) → P x → Q x) (xs : List A)
    → All P xs
    → All Q xs
All-map P Q f [] h = tt
All-map P Q f (x ∷ xs) h = (f x h.0, All-map P Q f xs h.1)

-- What a filtered list says of the list.
module _ {ℓ κ} {A : Type ℓ} (P : A → Type κ) (p : A → Bool) where
  pub All-filter : (xs : List A) → All P xs → All P (filter p xs)
  All-filter [] h = tt
  All-filter (x ∷ xs) h = elim (Bool-cases (p x)) [
    | inl e ↦ rw e (h.0, All-filter xs h.1)
    | inr e ↦ rw e (All-filter xs h.1)
  ]

  pub All-of_filter : (xs : List A) → All P (filter p xs) → All (λ x. p x ≡ true → P x) xs
  All-of_filter [] h = tt
  All-of_filter (x ∷ xs) h = elim (Bool-cases (p x)) [
    | inl e ↦ let h' = rw e at h in ((λ _. h'.0), All-of_filter xs h'.1)
    | inr e ↦ ((λ e'. absurd (false≢true (sym e ∙ e'))), All-of_filter xs (rw e at h))
  ]

pub All-filter_test {ℓ} :
    {A : Type ℓ} (p : A → Bool) (xs : List A) → All (λ x. p x ≡ true) (filter p xs)
All-filter_test p [] = tt
All-filter_test p (x ∷ xs) = elim (Bool-cases (p x)) [
  | inl e ↦ rw e (e, All-filter_test p xs)
  | inr e ↦ rw e (All-filter_test p xs)
]

pub All-both {ℓ κ ι μ} :
    {A : Type ℓ} (P : A → Type κ) (Q : A → Type ι) (R : A → Type μ) (f : (x : A) → P x → Q x → R x)
    (xs : List A)
    → All P xs
    → All Q xs
    → All R xs
All-both P Q R f [] h k = tt
All-both P Q R f (x ∷ xs) h k = (f x h.0 k.0, All-both P Q R f xs h.1 k.1)
