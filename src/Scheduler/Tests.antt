-- ===== src/Scheduler/Tests.antt =====
-- Runs of the scheduler (apps/datacore/src/scheduler.ts).
use complete.Base.{ℕ, ◌+◌, String, List, [], ◌∷◌, ◌++◌, Option, none, some, ◌≡◌, map, arith, All}
use complete.Scheduler.{active, ScheduledJob, Claimed, World, claim_due, tick}
use complete.Scheduler.Claims.{claim_due_again}
use complete.Scheduler.Deliveries.{IsUnique, delivery_key}
use complete.Scheduler.Timeliness.{IsTimely, tick-IsTimely}
use complete.Scheduler.Traces.{Op, run, handled_once}

abbrev soon_after : Claimed → ℕ
soon_after c = 60001

abbrev every_minute : String → String → ℕ → ℕ
every_minute cron timezone t = t + 60000

abbrev same_text : ℕ → String
same_text t = "t"

abbrev succeeds : String → Option (String → String → ℕ → Option String)
succeeds kind = some (λ tenant ref at. none)

abbrev nightly : ScheduledJob
nightly = record {
  id = "sjob_t_SCAN_all";
  tenant_id = "t";
  kind = "SCAN";
  ref_id = "all";
  cron = "* * * * *";
  timezone = "UTC";
  next_run_at = 60000;
  last_run_at = none;
  status = active;
  last_error = none;
}

abbrev ops : List Op
ops =
    Op.register "t" "sjob_t_SCAN_all" "SCAN" "all" "* * * * *" "UTC" 0
    ∷ Op.tick succeeds 60000 soon_after
    ∷ Op.tick succeeds 60000 soon_after
    ∷ []

abbrev nothing_yet : World
nothing_yet = record { jobs = nightly ∷ []; runs = []; handled = [] }

handled_once_example : IsUnique (
    map
      (delivery_key same_text)
      (run every_minute same_text 120000 ops
        (record { jobs = []; runs = []; handled = [] })).handled)
handled_once_example = handled_once every_minute same_text 120000 ops

tick-IsTimely_example :
    (fresh : List Claimed) × ((tick same_text succeeds soon_after 120000 every_minute 60000
        nothing_yet).0.handled
      ≡ [] ++ fresh)
    × All (IsTimely 120000 60000) fresh
tick-IsTimely_example =
    tick-IsTimely same_text succeeds soon_after 120000 every_minute 60000 nothing_yet

claim_due_again_example :
    claim_due every_minute 60000 (claim_due every_minute 60000 (nightly ∷ [])).0
    ≡ ((claim_due every_minute 60000 (nightly ∷ [])).0, [])
claim_due_again_example =
    claim_due_again every_minute (λ cron timezone t. omega arith) 60000 (nightly ∷ [])
