-- ===== src/Scheduler/Deliveries.antt =====
-- Which deliveries ticks make (apps/datacore/src/scheduler.ts, `tick` of `SchedulerService`).
use complete.Base.{
  map, inl, inr, ℕ, ◌-◌, String, true, List, [], ◌∷◌, ◌++◌, Option, none, ◌≡◌, ◌≢◌, refl, sym,
  arith, All, All-map, All-append, Bool-cases, Option-cases, ltb, is_some,
}
use complete.Store.{find_key, mem_key, put}
use complete.Store.Laws.{find_key-put, find_key-put_self}
use complete.Scheduler.{
  job_entity, SchedulerRun, run_entity, Claimed, World, Counts, run_id, missed_run, started_run,
  succeeded_run, failed_run, outcome, noted, run_claimed, deliver, deliver_all,
}

-- No key twice.
abbrev pub IsUnique : List String → Type 0
IsUnique [] = Unit
IsUnique (k ∷ ks) = All (λ k'. k' ≢ k) ks × IsUnique ks

append-IsUnique :
    (k : String) (ks : List String) → All (λ k'. k' ≢ k) ks → IsUnique ks → IsUnique (ks ++ k ∷ [])
append-IsUnique k [] h u = (tt, tt)
append-IsUnique k (k' ∷ ks) h u = (
  All-append (λ x. x ≢ k') ks (k ∷ []) u.0 ((λ e. h.0 (sym e)), tt),
  append-IsUnique k ks h.1 u.1,
)

map_append : {A B : Type 0} (f : A → B) (xs ys : List A) → map f (xs ++ ys) ≡ map f xs ++ map f ys
map_append f [] ys = refl
map_append f (x ∷ xs) ys = rw (map_append f xs ys) refl

pub append_nil : {A : Type 0} (xs : List A) → xs ++ [] ≡ xs
append_nil [] = refl
append_nil (x ∷ xs) = rw (append_nil xs) refl

put-is_some :
    (k : String) (r : SchedulerRun) (runs : List SchedulerRun)
    → is_some (find_key k runs) ≡ true
    → is_some (find_key k (put r runs)) ≡ true
put-is_some k r runs h = ground (arith, find_key-put k r runs)

module _ (iso : ℕ → String) where
  -- The key under which a delivery is stored.
  abbrev pub delivery_key : Claimed → String
  delivery_key c = mem_key c.job.tenant_id (run_id iso c)

  abbrev pub IsStored : List SchedulerRun → String → Type 0
  IsStored runs k = is_some (find_key k runs) ≡ true

  -- Of no delivery were two handlers called, and each of them has its run stored.
  abbrev pub IsOnce : World → Type 0
  IsOnce w =
      IsUnique (map delivery_key w.handled) × All (IsStored w.runs) (map delivery_key w.handled)

  stored-differs :
      (runs : List SchedulerRun) (k k' : String)
      → find_key k runs ≡ none
      → IsStored runs k'
      → k' ≢ k
  stored-differs runs k k' e h same = absurd (cc (e, h, same))

  module _ (handler : String → Option (String → String → ℕ → Option String))
      (ended : Claimed → ℕ) where
    kept :
        (w : World) (ks : List String) (r : SchedulerRun)
        → All (IsStored w.runs) ks
        → All (IsStored (put r w.runs)) ks
    kept w ks r h =
        All-map (IsStored w.runs) (IsStored (put r w.runs)) (λ k. put-is_some k r w.runs) ks h

    -- The stores after a claimed job is run.
    pub run_claimed_lem :
        (now : ℕ) (c : Claimed) (w : World) (n : Counts)
        → let w' = (run_claimed iso handler ended now c (w, n)).0 in
          (w'.handled ≡ w.handled ++ noted (handler c.job.kind) c)
          × (r : SchedulerRun) × (r.id ≡ run_id iso c)
          × (r.tenant_id ≡ c.job.tenant_id)
          × (w'.runs ≡ put r (put (started_run iso now c) w.runs))
    unfolding run_claimed
    run_claimed_lem now c w n = elim (Option-cases (outcome handler c)) [
      | inl e ↦
          rw (run_claimed, e)
            (refl, succeeded_run (ended c) (started_run iso now c), refl, refl, refl)
      | inr (err, e) ↦
          rw (run_claimed, e)
            (refl, failed_run (ended c) err (started_run iso now c), refl, refl, refl)
    ]

    run_claimed-IsOnce :
        (now : ℕ) (c : Claimed) (w : World) (n : Counts)
        → find_key (delivery_key c) w.runs ≡ none
        → IsOnce w
        → IsOnce (run_claimed iso handler ended now c (w, n)).0
    run_claimed-IsOnce now c w n new (unique, stored) =
        let k = delivery_key c in
        let ks = map delivery_key w.handled in
        let first = started_run iso now c in
        let (log, r, id, tenant, runs) = run_claimed_lem now c w n in
        let stored' =
          All-map (IsStored w.runs) (IsStored (put r (put first w.runs)))
            (λ k' h. put-is_some k' r (put first w.runs) (put-is_some k' first w.runs h)) ks
            stored in
        let here : IsStored (put r (put first w.runs)) k =
          put-is_some k r (put first w.runs) (rw (find_key-put_self k first w.runs refl) refl) in
        rw (log, runs, map_append delivery_key w.handled (noted (handler c.job.kind) c))
          (elim (Option-cases (handler c.job.kind)) [
            | inl e ↦ rw (e, append_nil ks) (unique, stored')
            | inr (h, e) ↦ rw e (
              append-IsUnique k ks
                  (All-map (IsStored w.runs) (λ k'. k' ≢ k) (λ k'. stored-differs w.runs k k' new)
                    ks stored)
                  unique,
              All-append (IsStored (put r (put first w.runs))) ks (k ∷ []) stored' (here, tt),
            )
          ])

    module _ (grace : ℕ) where
      deliver-IsOnce :
          (now : ℕ) (c : Claimed) (s : World × Counts)
          → IsOnce s.0
          → IsOnce (deliver iso handler ended grace now c s).0
      unfolding deliver
      deliver-IsOnce now c (w, n) (unique, stored) =
          let ks = map delivery_key w.handled in
          elim (Option-cases (find_key (delivery_key c) w.runs)) [
            | inl e ↦ elim (Bool-cases (ltb grace (now - c.scheduled_at))) [
              | inl m ↦
                  rw (deliver, e, m)
                    (
                      unique,
                      All-map (IsStored w.runs) (IsStored (put (missed_run iso now c) w.runs))
                          (λ k. put-is_some k (missed_run iso now c) w.runs) ks stored,
                    )
              | inr m ↦ rw (deliver, e, m) (run_claimed-IsOnce now c w n e (unique, stored))
            ]
            | inr (r, e) ↦ rw (deliver, e) (unique, stored)
          ]

      pub deliver_all-IsOnce :
          (now : ℕ) (claimed : List Claimed) (s : World × Counts)
          → IsOnce s.0
          → IsOnce (deliver_all iso handler ended grace now claimed s).0
      unfolding deliver_all
      deliver_all-IsOnce now [] s h = h
      deliver_all-IsOnce now (c ∷ claimed) s h =
          deliver_all-IsOnce now claimed (deliver iso handler ended grace now c s)
            (deliver-IsOnce now c s h)
