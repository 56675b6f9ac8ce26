-- ===== src/Features/Closed.antt =====
-- What the cascade of features keeps (apps/datacore/src/features.ts, `cascade`).
use complete.Base.{
  inl, inr, ℕ, zero, suc, ◌≤◌, String, Bool, true, false, List, [], ◌∷◌, ◌≡◌, refl, arith, str_eq,
  eq_iff, filter, length, Bool-cases, All, All-map,
}
use complete.Features.Registry.{FeatureDef}
use complete.Features.Cascade.{
  has, parents, Visit, visited, off, exhausted, and_on, all_on, is_on, cascade, is_visited,
}
use complete.Features.Search.{IsSubset}

-- A visit that found all, with no more seen than `seen`.
abbrev Found : List String → Visit → Type 0
Found seen (visited out) = IsSubset out seen
Found seen off = ⊥
Found seen exhausted = ⊥

-- What one visit finds, the other finds too.
abbrev Follows : Visit → Visit → Type 0
Follows (visited out) v = Found out v
Follows off v = Unit
Follows exhausted v = Unit

and_on-Follows :
    (v w : Visit) (k l : List String → Visit)
    → Follows v w
    → ((s t : List String) → IsSubset t s → Follows (k s) (l t))
    → Follows (and_on v k) (and_on w l)
and_on-Follows (visited s) (visited t) k l h next = next s t h
and_on-Follows (visited s) off k l h next = absurd h
and_on-Follows (visited s) exhausted k l h next = absurd h
and_on-Follows off w k l h next = tt
and_on-Follows exhausted w k l h next = tt

all_on-Follows :
    (go go' : String → List String → Visit)
    → ((p : String) (s t : List String) → IsSubset t s → Follows (go p s) (go' p t))
    → (ps s t : List String) → IsSubset t s
    → Follows (all_on go ps s) (all_on go' ps t)
all_on-Follows go go' h [] s t sub = sub
all_on-Follows go go' h (p ∷ ps) s t sub =
    and_on-Follows (go p s) (go' p t) (all_on go ps) (all_on go' ps) (h p s t sub)
      (λ s' t' sub'. all_on-Follows go go' h ps s' t' sub')

IsSubset-both : (k : String) (t s : List String) → IsSubset t s → IsSubset (k ∷ t) (k ∷ s)
IsSubset-both k t s h l e = ground (arith, h l)

module _ (registry : List FeatureDef) where
  -- With as much fuel, as many features on, and no more seen, no less is found.
  is_on-Follows :
      (f f' : ℕ) (on on' : List String) (key : String) (s t : List String)
      → f ≤ f'
      → IsSubset on on'
      → IsSubset t s
      → Follows (is_on registry f on key s) (is_on registry f' on' key t)
  unfolding is_on
  is_on-Follows zero f' on on' key s t le sub sub' = tt
  is_on-Follows (suc f) zero on on' key s t le sub sub' = absurd (omega arith)
  is_on-Follows (suc f) (suc f') on on' key s t le sub sub' = elim (Bool-cases (has key s)) [
    | inl e ↦ rw e tt
    | inr e ↦ elim (Bool-cases (has key on)) [
      | inr e' ↦ rw (e, e') tt
      | inl e' ↦
          let unseen : has key t ≡ false = ground (arith, sub' key) in
          let on_too : has key on' ≡ true = sub key e' in
          rw (e, e', unseen, on_too)
            (all_on-Follows (is_on registry f on) (is_on registry f' on')
              (λ p s' t' h. is_on-Follows f f' on on' p s' t' (omega arith) sub h)
              (parents registry key) (key ∷ s) (key ∷ t) (IsSubset-both key t s sub'))
    ]
  ]

pub has-filter :
    (p : String → Bool) (k : String) (ks : List String)
    → has k (filter p ks) ≡ true
    → (has k ks ≡ true) × (p k ≡ true)
has-filter p k [] e = absurd (cc)
has-filter p k (l ∷ ks) e = elim (Bool-cases (str_eq k l)) [
  | inl same ↦
      let k_l : k ≡ l = (eq_iff k l).0 same in
      elim (Bool-cases (p l)) [
        | inl q ↦ (rw same refl, rw k_l q)
        | inr q ↦ let ih = has-filter p k ks (rw q at e) in (rw same refl, ih.1)
      ]
  | inr other ↦
      let ih : has k (filter p ks) ≡ true → (has k ks ≡ true) × (p k ≡ true) = has-filter p k ks in
      let h : (has k ks ≡ true) × (p k ≡ true) = ground arith in (rw other h.0, h.1)
]

filter-has :
    (p : String → Bool) (k : String) (ks : List String)
    → has k ks ≡ true
    → p k ≡ true
    → has k (filter p ks) ≡ true
filter-has p k [] e q = absurd (cc)
filter-has p k (l ∷ ks) e q = elim (Bool-cases (str_eq k l)) [
  | inl same ↦
      let k_l : k ≡ l = (eq_iff k l).0 same in
      let q' : p l ≡ true = rw (← k_l) q in rw q' (rw same refl)
  | inr other ↦ let ih = filter-has p k ks (rw other at e) q in ground arith
]

found-visited : (v w : Visit) → Follows v w → is_visited v ≡ true → is_visited w ≡ true
found-visited (visited s) (visited t) h e = refl
found-visited (visited s) off h e = absurd h
found-visited (visited s) exhausted h e = absurd h
found-visited off w h e = absurd (cc)
found-visited exhausted w h e = absurd (cc)

and_on-visited :
    (v : Visit) (k : List String → Visit)
    → is_visited (and_on v k) ≡ true
    → (is_visited v ≡ true) × ((s : List String) × (is_visited (k s) ≡ true))
and_on-visited (visited s) k e = (refl, (s, e))
and_on-visited off k e = absurd (cc)
and_on-visited exhausted k e = absurd (cc)

all_on-each :
    (go : String → List String → Visit) (ps s : List String)
    → is_visited (all_on go ps s) ≡ true
    → All (λ p. (t : List String) × (is_visited (go p t) ≡ true)) ps
all_on-each go [] s e = tt
all_on-each go (p ∷ ps) s e =
    let (first, (t, others)) = and_on-visited (go p s) (all_on go ps) e in
    ((s, first), all_on-each go ps t others)

module _ (registry : List FeatureDef) where
  is_on-has :
      (f : ℕ) (on : List String) (key : String) (s : List String)
      → is_visited (is_on registry f on key s) ≡ true
      → has key on ≡ true
  unfolding is_on
  is_on-has zero on key s e = absurd (cc)
  is_on-has (suc f) on key s e = ground arith

  is_on-parents :
      (f : ℕ) (on : List String) (key : String) (s : List String)
      → is_visited (is_on registry (suc f) on key s) ≡ true
      → is_visited (all_on (is_on registry f on) (parents registry key) (key ∷ s)) ≡ true
  unfolding is_on
  is_on-parents f on key s e = ground arith

  -- An effective feature is on, and every feature that it requires is effective.
  pub cascade_closed :
      (on : List String) (key : String)
      → has key (cascade registry on) ≡ true
      → (has key on ≡ true) × All (λ p. has p (cascade registry on) ≡ true) (parents registry key)
  unfolding cascade
  cascade_closed on key e =
      let n = length on in
      let reached = λ (k : String). is_visited (is_on registry (suc n) on k []) in
      let h = has-filter reached key on e in
      (
        h.0,
        All-map _ (λ p. has p (filter reached on) ≡ true)
            (λ p q.
              let again =
                is_on-Follows registry n (suc n) on on p q.0 [] (omega arith) (λ l x. x)
                  (λ l x. absurd (cc)) in
              let ok =
                found-visited (is_on registry n on p q.0) (is_on registry (suc n) on p []) again
                  q.1 in
              filter-has reached p on (is_on-has n on p q.0 q.1) ok)
            (parents registry key)
            (all_on-each (is_on registry n on) (parents registry key) (key ∷ [])
              (is_on-parents n on key [] h.1)),
      )

  -- Turning features off makes none effective.
  pub cascade_mono :
      (on on' : List String)
      → IsSubset on on'
      → length on ≤ length on'
      → IsSubset (cascade registry on) (cascade registry on')
  unfolding cascade
  cascade_mono on on' sub le key e =
      let n = length on in
      let n' = length on' in
      let h = has-filter (λ k. is_visited (is_on registry (suc n) on k [])) key on e in
      let again =
        is_on-Follows registry (suc n) (suc n') on on' key [] [] (omega arith) sub (λ l x. x) in
      filter-has (λ k. is_visited (is_on registry (suc n') on' k [])) key on' (sub key h.0)
        (found-visited (is_on registry (suc n) on key []) (is_on registry (suc n') on' key []) again
          h.1)
