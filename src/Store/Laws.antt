-- ===== src/Store/Laws.antt =====
-- Laws of the in-memory repository (apps/datacore/src/repo/memory.ts): what a read sees after a
-- write, and which records a filtered listing holds.
use complete.Base.{
  String, Bool, true, false, ◌&&◌, List, [], ◌∷◌, some, ◌≡◌, refl, inl, inr, arith, if◌then◌else◌,
  str_eq, eq_iff, Bool-cases, All,
}
use complete.Store.{Entity, key_of, find_key, put, list}

no_row : (a b : String) (passes : Bool) → a ≡ b → passes ≡ true → (str_eq a b && passes) ≡ false → ⊥
no_row a b passes same yes' q = ground (arith, eq_iff a b)

module _ {T : Type 0} ⦃e : Entity T⦄ where
  -- A read after a write, at every key.
  pub find_key-put :
      (k : String) (x : T) (s : List T)
      → find_key k (put x s) ≡ (if str_eq (key_of x) k then some x else find_key k s)
  unfolding find_key put
  find_key-put k x [] = refl
  find_key-put k x (y ∷ ys) = ground (
    arith,
    eq_iff (key_of y) (key_of x),
    eq_iff (key_of y) k,
    eq_iff (key_of x) k,
    find_key-put k x ys,
  )

  -- What is found at a key has that key.
  pub find_key-key : (k : String) (s : List T) (x : T) → find_key k s ≡ some x → key_of x ≡ k
  unfolding find_key
  find_key-key k [] x h = cc
  find_key-key k (y ∷ ys) x h = elim (Bool-cases (str_eq (key_of y) k)) [
    | inl same ↦ ground (arith, eq_iff (key_of y) k)
    | inr other ↦ find_key-key k ys x (rw other at h)
  ]

  -- A write of a record under the key at which it is read.
  pub find_key-put_self :
      (k : String) (x : T) (s : List T) → key_of x ≡ k → find_key k (put x s) ≡ some x
  find_key-put_self k x s h = rw (find_key-put k x s) (ground (arith, eq_iff (key_of x) k))

  -- A property of every record survives a write of a record that has it.
  pub All-put {κ} : (P : T → Type κ) (x : T) (s : List T) → P x → All P s → All P (put x s)
  unfolding put
  All-put P x [] p h = (p, tt)
  All-put P x (y ∷ ys) p h = elim (Bool-cases (str_eq (key_of y) (key_of x))) [
    | inl same ↦ rw same (p, h.1)
    | inr other ↦ rw other (h.0, All-put P x ys p h.1)
  ]

  -- So has the record that is found.
  pub All-find_key {κ} :
      (P : T → Type κ) (k : String) (s : List T) (x : T) → All P s → find_key k s ≡ some x → P x
  unfolding find_key
  All-find_key P k [] x h f = absurd (cc)
  All-find_key P k (y ∷ ys) x h f = elim (Bool-cases (str_eq (key_of y) k)) [
    | inl same ↦ rw (← some_eq (rw same at f)) h.0
    | inr other ↦ All-find_key P k ys x h.1 (rw other at f)
  ]
    where
      some_eq : some y ≡ some x → y ≡ x
      some_eq q = cc

  -- What holds of each record of a listing, said of the store.
  pub All-of_list {κ} :
      (P : T → Type κ) (tenant : String) (pred : T → Bool) (s : List T)
      → All P (list tenant pred s)
      → All (λ x. e.tenant_id x ≡ tenant → pred x ≡ true → P x) s
  unfolding list
  All-of_list P tenant pred [] h = tt
  All-of_list P tenant pred (x ∷ xs) h =
      elim (Bool-cases (str_eq (e.tenant_id x) tenant && pred x)) [
        | inl q ↦ let h' = rw q at h in ((λ _ _. h'.0), All-of_list P tenant pred xs h'.1)
        | inr q ↦ (
          λ same yes'. absurd (no_row (e.tenant_id x) tenant (pred x) same yes' q),
          All-of_list P tenant pred xs (rw q at h),
        )
      ]

  -- A listing holds records of the store, each of the tenant and passing the test.
  pub All-list {κ} :
      (P : T → Type κ) (tenant : String) (pred : T → Bool) (s : List T)
      → All P s
      → All (λ x. P x × (e.tenant_id x ≡ tenant) × (pred x ≡ true)) (list tenant pred s)
  unfolding list
  All-list P tenant pred [] h = tt
  All-list P tenant pred (x ∷ xs) h = elim (Bool-cases (str_eq (e.tenant_id x) tenant && pred x)) [
    | inl q ↦
        let row : (e.tenant_id x ≡ tenant) × (pred x ≡ true) =
          ground (arith, eq_iff (e.tenant_id x) tenant) in
        rw q ((h.0, row.0, row.1), All-list P tenant pred xs h.1)
    | inr q ↦ rw q (All-list P tenant pred xs h.1)
  ]
