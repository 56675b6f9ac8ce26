-- ===== src/Scheduler.antt =====
-- Scheduled jobs (apps/datacore/src/scheduler.ts, `SchedulerService`; `MemScheduledJobStore` of
-- apps/datacore/src/repo/memory.ts; record types of apps/datacore/src/domain.ts). Times are
-- milliseconds since the epoch, where the source compares ISO strings. Parameters are the cron library
-- (`cron_next`), the text of a time (`iso`), the handlers, and the clock at the end of a handler. The
-- ids of jobs come ready-made: the regular expression that cleans them is not modelled.
pub mod Claims
pub mod Deliveries
pub mod Traces
pub mod Timeliness
mod Tests
use complete.Base.{
  ℕ, ◌+◌, ◌-◌, String, Bool, true, false, not, ◌||◌, List, [], ◌∷◌, ◌++◌, Option, none, some,
  if◌then◌else◌, ltb, is_some, str_eq,
}
use complete.Store.{Entity, get, put, remove}
use Prim.Native.String

pub data JobStatus : Type 0 where
  active paused : JobStatus

pub record ScheduledJob : Type 0 where
  pub id : String
  pub tenant_id : String
  pub kind : String
  pub ref_id : String
  pub cron : String
  pub timezone : String
  pub next_run_at : ℕ
  pub last_run_at : Option ℕ
  pub status : JobStatus
  pub last_error : Option String

instance abbrev pub job_entity : Entity ScheduledJob
job_entity = record { tenant_id = λ j. j.tenant_id; id = λ j. j.id }

pub data RunStatus : Type 0 where
  running succeeded failed missed : RunStatus

pub record SchedulerRun : Type 0 where
  pub id : String
  pub tenant_id : String
  pub job_id : String
  pub scheduled_at : ℕ
  pub started_at : Option ℕ
  pub finished_at : Option ℕ
  pub status : RunStatus
  pub error : Option String

instance abbrev pub run_entity : Entity SchedulerRun
run_entity = record { tenant_id = λ r. r.tenant_id; id = λ r. r.id }

-- A job as it stands after its claim, and the time it was claimed for.
pub record Claimed : Type 0 where
  pub job : ScheduledJob
  pub scheduled_at : ℕ

-- The stores, and the claims that were handed to a handler so far.
pub record World : Type 0 where
  pub jobs : List ScheduledJob
  pub runs : List SchedulerRun
  pub handled : List Claimed

pub record Counts : Type 0 where
  pub executed : ℕ
  pub missed : ℕ
  pub skipped : ℕ

abbrev pub default_missed_grace_ms : ℕ
default_missed_grace_ms = 120000

abbrev pub is_active : JobStatus → Bool
is_active active = true
is_active paused = false

abbrev status_or : Option ScheduledJob → JobStatus
status_or none = active
status_or (some j) = j.status

abbrev last_run_of : Option ScheduledJob → Option ℕ
last_run_of none = none
last_run_of (some j) = j.last_run_at

-- `unregister`
abbrev pub unregister : (tenant id : String) → List ScheduledJob → List ScheduledJob
unregister tenant id jobs = remove tenant id jobs

module _ (cron_next : String → String → ℕ → ℕ) where
  -- `register`; the record is new, so that an error of the last run is gone.
  unfoldable pub register :
      (tenant id kind ref cron timezone : String) → ℕ → List ScheduledJob → List ScheduledJob
  register tenant id kind ref cron timezone now jobs =
      let existing = get tenant id jobs in
      put
        (record {
          id = id;
          tenant_id = tenant;
          kind = kind;
          ref_id = ref;
          cron = cron;
          timezone = timezone;
          next_run_at = cron_next cron timezone now;
          last_run_at = last_run_of existing;
          status = status_or existing;
          last_error = none;
        })
        jobs

  -- `setStatus`; none where it throws.
  unfoldable pub set_status :
      (tenant id : String)
      → JobStatus
      → ℕ
      → List ScheduledJob
      → Option ScheduledJob × List ScheduledJob
  set_status tenant id status now jobs = elim (get tenant id jobs) [
    | none ↦ (none, jobs)
    | some j ↦
        let at = if is_active status then cron_next j.cron j.timezone now else j.next_run_at in
        let j' = record j { status = status; next_run_at = at } in (some j', put j' jobs)
  ]

  abbrev pub is_due : ℕ → ScheduledJob → Bool
  is_due now j = not (not (is_active j.status) || ltb now j.next_run_at)

  abbrev pub advance : ℕ → ScheduledJob → ScheduledJob
  advance now j = record j {
    next_run_at = cron_next j.cron j.timezone now;
    last_run_at = some j.next_run_at;
  }

  -- `claimDue`: every active job that is due moves on, and is claimed for the time it stood at.
  unfoldable pub claim_due : ℕ → List ScheduledJob → List ScheduledJob × List Claimed
  claim_due now [] = ([], [])
  claim_due now (j ∷ jobs) =
      let (rest, claimed) = claim_due now jobs in
      if is_due now j
      then (
        advance now j ∷ rest,
        record { job = advance now j; scheduled_at = j.next_run_at } ∷ claimed,
      )
      else (j ∷ rest, claimed)

module _ (iso : ℕ → String) where
  abbrev pub run_id : Claimed → String
  run_id c = String.◌++◌ c.job.id (String.◌++◌ "@" (iso c.scheduled_at))

  abbrev pub missed_run : ℕ → Claimed → SchedulerRun
  missed_run now c = record {
    id = run_id c;
    tenant_id = c.job.tenant_id;
    job_id = c.job.id;
    scheduled_at = c.scheduled_at;
    started_at = none;
    finished_at = some now;
    status = missed;
    error = none;
  }

  abbrev pub started_run : ℕ → Claimed → SchedulerRun
  started_run now c = record {
    id = run_id c;
    tenant_id = c.job.tenant_id;
    job_id = c.job.id;
    scheduled_at = c.scheduled_at;
    started_at = some now;
    finished_at = none;
    status = running;
    error = none;
  }

-- A handler is there or not for a kind of job, and ends with no error or with the text of one.
abbrev pub outcome :
    (String → Option (String → String → ℕ → Option String)) → Claimed → Option String
outcome handler c = elim (handler c.job.kind) [
  | none ↦ none
  | some h ↦ h c.job.tenant_id c.job.ref_id c.scheduled_at
]

abbrev pub noted : Option (String → String → ℕ → Option String) → Claimed → List Claimed
noted none c = []
noted (some h) c = c ∷ []

abbrev pub succeeded_run : ℕ → SchedulerRun → SchedulerRun
succeeded_run ended run = record run { status = succeeded; finished_at = some ended }

abbrev pub failed_run : ℕ → String → SchedulerRun → SchedulerRun
failed_run ended err run = record run {
  status = failed;
  error = some err;
  finished_at = some ended;
}

module _ (iso : ℕ → String) (handler : String → Option (String → String → ℕ → Option String))
    (ended : Claimed → ℕ) where
  -- `ended` is the time that is read when the handler of a claim is done.
  -- The claimed job is run: the run is stored before the handler is called and again after it.
  unfoldable pub run_claimed : ℕ → Claimed → World × Counts → World × Counts
  run_claimed now c (w, n) =
      let run = started_run iso now c in
      let started = put run w.runs in
      let handled = w.handled ++ noted (handler c.job.kind) c in
      elim (outcome handler c) [
        | none ↦ (
          record w { runs = put (succeeded_run (ended c) run) started; handled = handled },
          record n { executed = n.executed + 1 },
        )
        | some err ↦ (
          record w {
            jobs = put (record c.job { last_error = some err }) w.jobs;
            runs = put (failed_run (ended c) err run) started;
            handled = handled;
          },
          n,
        )
      ]

  module _ (missed_grace_ms : ℕ) where
    -- One turn of the loop of `tick`.
    unfoldable pub deliver : ℕ → Claimed → World × Counts → World × Counts
    deliver now c (w, n) =
        let existing = get c.job.tenant_id (run_id iso c) w.runs in
        let ran = run_claimed now c (w, n) in
        if is_some existing
        then (w, record n { skipped = n.skipped + 1 })
        else if ltb missed_grace_ms (now - c.scheduled_at)
        then (
          record w { runs = put (missed_run iso now c) w.runs },
          record n { missed = n.missed + 1 },
        )
        else ran

    unfoldable pub deliver_all : ℕ → List Claimed → World × Counts → World × Counts
    deliver_all now [] s = s
    deliver_all now (c ∷ claimed) s = deliver_all now claimed (deliver now c s)

    unfoldable pub tick : (String → String → ℕ → ℕ) → ℕ → World → World × Counts
    tick cron_next now w =
        let (jobs, claimed) = claim_due cron_next now w.jobs in
        deliver_all now claimed
          (record w { jobs = jobs }, record { executed = 0; missed = 0; skipped = 0 })
