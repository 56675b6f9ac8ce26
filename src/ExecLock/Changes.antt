-- ===== src/ExecLock/Changes.antt =====
-- What a write to the store of execution locks (apps/datacore/src/execlock.ts) leaves of the record at
-- a key.
use complete.Base.{
  String, List, some, ◌≡◌, ◌⊎◌, inl, inr, str_eq, eq_iff, Bool-cases, sym, ◌∙◌, subst,
}
use complete.Store.{key_of, find_key, put}
use complete.Store.Laws.{find_key-put, find_key-key}
use complete.ExecLock.{LockRecord, lock_entity}

module _ (here : String) (Holds : LockRecord → Type 0) where
  -- There is a record at the key, and it is as is said.
  abbrev pub IsAt : List LockRecord → Type 0
  IsAt s = (lock : LockRecord) × (find_key here s ≡ some lock) × Holds lock

  -- A write at another key, or of a record like the one there.
  pub put-IsAt :
      (x : LockRecord) (s : List LockRecord) → IsAt s → (key_of x ≡ here → Holds x) → IsAt (put x s)
  put-IsAt x s (lock, found, good) keeps = elim (Bool-cases (str_eq (key_of x) here)) [
    | inl e ↦ (x, rw (find_key-put here x s) (rw e), keeps ((eq_iff (key_of x) here).0 e))
    | inr e ↦ (lock, rw (find_key-put here x s) (rw e found), good)
  ]

  -- A change of a record that was found, where it keeps the key and what is said.
  change-IsAt :
      (k : String) (r x : LockRecord) (s : List LockRecord)
      → IsAt s
      → find_key k s ≡ some r
      → key_of x ≡ key_of r
      → (Holds r → Holds x)
      → IsAt (put x s)
  change-IsAt k r x s (lock, found, good) at_k same keeps =
      put-IsAt x s (lock, found, good)
        λ e.
          let there : find_key here s ≡ some r =
            subst (λ j. find_key j s ≡ some r) (sym (find_key-key k s r at_k) ∙ sym same ∙ e)
              at_k in
          let is_lock : lock ≡ r = cc in keeps (subst Holds is_lock good)

  -- An operation that leaves the store, or changes what it found at its key and fits `who`.
  pub kept-IsAt :
      (k : String) (s s' : List LockRecord) (change : LockRecord → LockRecord)
      (Fits : LockRecord → Type 0)
      → IsAt s
      → ((r : LockRecord) → key_of (change r) ≡ key_of r)
      → ((r : LockRecord) → Fits r → Holds r → Holds (change r))
      → (s' ≡ s) ⊎ ((r : LockRecord) × (find_key k s ≡ some r) × Fits r × (s' ≡ put (change r) s))
      → IsAt s'
  kept-IsAt k s s' change Fits held same keeps (inl e) = subst IsAt (sym e) held
  kept-IsAt k s s' change Fits held same keeps (inr (r, found, fits, e)) =
      subst IsAt (sym e) (change-IsAt k r (change r) s held found (same r) (keeps r fits))
