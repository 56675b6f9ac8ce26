-- ===== src/Scheduler/Timeliness.antt =====
-- When ticks call handlers (apps/datacore/src/scheduler.ts, `tick` of `SchedulerService`).
use complete.Base.{
  inl, inr, ℕ, ◌+◌, ◌-◌, ◌≤◌, String, List, [], ◌∷◌, ◌++◌, Option, none, some, ◌≡◌, ◌∙◌, ap, sym,
  refl, arith, All, All-append, Bool-cases, Option-cases, ltb,
}
use complete.Store.{get}
use complete.Scheduler.{
  run_entity, active, Claimed, World, Counts, claim_due, run_id, noted, deliver, deliver_all, tick,
}
use complete.Scheduler.Claims.{IsDueClaim, claim_due-All}
use complete.Scheduler.Deliveries.{run_claimed_lem, append_nil}

-- The job was active, and the handler is called neither before the time claimed nor later than the
-- grace allows.
abbrev pub IsTimely : ℕ → ℕ → Claimed → Type 0
IsTimely grace now c =
    (c.job.status ≡ active) × (c.scheduled_at ≤ now) × (now ≤ c.scheduled_at + grace)

append_assoc : {A : Type 0} (xs ys zs : List A) → (xs ++ ys) ++ zs ≡ xs ++ (ys ++ zs)
append_assoc [] ys zs = refl
append_assoc (x ∷ xs) ys zs = rw (append_assoc xs ys zs) refl

noted-All {κ} :
    (P : Claimed → Type κ) (h : Option (String → String → ℕ → Option String)) (c : Claimed)
    → P c
    → All P (noted h c)
noted-All P none c p = tt
noted-All P (some h) c p = (p, tt)

module _ (iso : ℕ → String) (handler : String → Option (String → String → ℕ → Option String))
    (ended : Claimed → ℕ) (grace : ℕ) where
  -- What is handled of new is timely.
  abbrev AddsTimely : ℕ → List Claimed → List Claimed → Type 0
  AddsTimely now old new =
      (fresh : List Claimed) × (new ≡ old ++ fresh) × All (IsTimely grace now) fresh

  deliver-AddsTimely :
      (now : ℕ) (c : Claimed) (s : World × Counts)
      → IsDueClaim now c
      → AddsTimely now s.0.handled (deliver iso handler ended grace now c s).0.handled
  unfolding deliver
  deliver-AddsTimely now c (w, n) (status, due) =
      elim (Option-cases (get c.job.tenant_id (run_id iso c) w.runs)) [
        | inl e ↦ elim (Bool-cases (ltb grace (now - c.scheduled_at))) [
          | inl m ↦ rw (deliver, e, m) ([], sym (append_nil w.handled), tt)
          | inr m ↦
              rw (deliver, e, m)
                (
                  noted (handler c.job.kind) c,
                  (run_claimed_lem iso handler ended now c w n).0,
                  noted-All (IsTimely grace now) (handler c.job.kind) c
                      (status, due, ground (arith, m)),
                )
        ]
        | inr (r, e) ↦ rw (deliver, e) ([], sym (append_nil w.handled), tt)
      ]

  deliver_all-AddsTimely :
      (now : ℕ) (claimed : List Claimed) (s : World × Counts)
      → All (IsDueClaim now) claimed
      → AddsTimely now s.0.handled (deliver_all iso handler ended grace now claimed s).0.handled
  unfolding deliver_all
  deliver_all-AddsTimely now [] s h = ([], sym (append_nil s.0.handled), tt)
  deliver_all-AddsTimely now (c ∷ claimed) s h =
      let (one, e, p) = deliver-AddsTimely now c s h.0 in
      let (more, e', p') =
        deliver_all-AddsTimely now claimed (deliver iso handler ended grace now c s) h.1 in
      (
        one ++ more,
        e' ∙ (ap (λ x. x ++ more) e ∙ append_assoc s.0.handled one more),
        All-append (IsTimely grace now) one more p p',
      )

  -- A tick only adds to the calls of handlers, and each call it adds is of a job that is active, for a
  -- time that has come and that lies back by no more than the grace.
  pub tick-IsTimely :
      (cron_next : String → String → ℕ → ℕ) (now : ℕ) (w : World)
      → AddsTimely now w.handled (tick iso handler ended grace cron_next now w).0.handled
  unfolding tick
  tick-IsTimely cron_next now w =
      deliver_all-AddsTimely now (claim_due cron_next now w.jobs).1
        (
          record w { jobs = (claim_due cron_next now w.jobs).0 },
          record { executed = 0; missed = 0; skipped = 0 },
        )
        (claim_due-All cron_next now w.jobs)
