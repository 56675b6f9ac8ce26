-- ===== src/Scheduler/Claims.antt =====
-- What a claim of due jobs does (apps/datacore/src/repo/memory.ts, `claimDue`).
use complete.Base.{
  inl, inr, ℕ, ◌≤◌, ◌<◌, String, true, false, List, [], ◌∷◌, ◌≡◌, refl, arith, All, Bool-cases,
}
use complete.Scheduler.{active, ScheduledJob, Claimed, is_due, advance, claim_due}

-- Claimed is what is active and was due.
abbrev pub IsDueClaim : ℕ → Claimed → Type 0
IsDueClaim now c = (c.job.status ≡ active) × (c.scheduled_at ≤ now)

module _ (cron_next : String → String → ℕ → ℕ) where
  due-active : (now : ℕ) (j : ScheduledJob) → is_due cron_next now j ≡ true → j.status ≡ active
  due-active now j e = ground arith

  due-le : (now : ℕ) (j : ScheduledJob) → is_due cron_next now j ≡ true → j.next_run_at ≤ now
  due-le now j e = ground arith

  pub claim_due-All :
      (now : ℕ) (jobs : List ScheduledJob) → All (IsDueClaim now) (claim_due cron_next now jobs).1
  unfolding claim_due
  claim_due-All now [] = tt
  claim_due-All now (j ∷ jobs) = elim (Bool-cases (is_due cron_next now j)) [
    | inl e ↦ rw e ((due-active now j e, due-le now j e), claim_due-All now jobs)
    | inr e ↦ rw e (claim_due-All now jobs)
  ]

  module _ (later : (cron timezone : String) (t : ℕ) → t < cron_next cron timezone t) where
    advance-due :
        (now : ℕ) (j : ScheduledJob) → is_due cron_next now (advance cron_next now j) ≡ false
    advance-due now j = ground (arith, later j.cron j.timezone now)

    -- If the next occurrence of a schedule after a time is later than that time, a second claim at the
    -- same time claims nothing and leaves the jobs as they are.
    pub claim_due_again :
        (now : ℕ) (jobs : List ScheduledJob)
        → claim_due cron_next now (claim_due cron_next now jobs).0
          ≡ ((claim_due cron_next now jobs).0, [])
    unfolding claim_due
    claim_due_again now [] = refl
    claim_due_again now (j ∷ jobs) = elim (Bool-cases (is_due cron_next now j)) [
      | inl e ↦ rw (e, claim_due_again now jobs, advance-due now j) refl
      | inr e ↦ rw (e, claim_due_again now jobs, e) refl
    ]
