-- ===== src/Scheduler/Traces.antt =====
-- Sequences of calls of `SchedulerService` (apps/datacore/src/scheduler.ts).
use complete.Base.{ℕ, String, List, [], ◌∷◌, Option, map}
use complete.Scheduler
use complete.Scheduler.{
  JobStatus, ScheduledJob, job_entity, World, Counts, Claimed, claim_due, deliver_all,
}
use complete.Scheduler.Deliveries.{IsUnique, delivery_key, IsOnce, deliver_all-IsOnce}

pub data Op : Type 0 where
  register : (tenant id kind ref cron timezone : String) → (now : ℕ) → Op
  unregister : (tenant id : String) → Op
  set_status : (tenant id : String) → JobStatus → (now : ℕ) → Op
  tick :
      (handler : String → Option (String → String → ℕ → Option String))
      → (now : ℕ) → (ended : Claimed → ℕ) → Op

module _ (cron_next : String → String → ℕ → ℕ) (iso : ℕ → String) (grace : ℕ) where
  abbrev pub apply : Op → World → World
  apply (Op.register tenant id kind ref cron timezone now) w = record w {
    jobs = Scheduler.register cron_next tenant id kind ref cron timezone now w.jobs;
  }
  apply (Op.unregister tenant id) w = record w { jobs = Scheduler.unregister tenant id w.jobs }
  apply (Op.set_status tenant id status now) w = record w {
    jobs = (Scheduler.set_status cron_next tenant id status now w.jobs).1;
  }
  apply (Op.tick handler now ended) w = (Scheduler.tick iso handler ended grace cron_next now w).0

  abbrev pub run : List Op → World → World
  run [] w = w
  run (op ∷ ops) w = run ops (apply op w)

  apply-IsOnce : (op : Op) (w : World) → IsOnce iso w → IsOnce iso (apply op w)
  unfolding Scheduler.tick
  apply-IsOnce (Op.register tenant id kind ref cron timezone now) w h = h
  apply-IsOnce (Op.unregister tenant id) w h = h
  apply-IsOnce (Op.set_status tenant id status now) w h = h
  apply-IsOnce (Op.tick handler now ended) w h =
      deliver_all-IsOnce iso handler ended grace now (claim_due cron_next now w.jobs).1
        (
          record w { jobs = (claim_due cron_next now w.jobs).0 },
          record { executed = 0; missed = 0; skipped = 0 },
        )
        h

  run-IsOnce : (ops : List Op) (w : World) → IsOnce iso w → IsOnce iso (run ops w)
  run-IsOnce [] w h = h
  run-IsOnce (op ∷ ops) w h = run-IsOnce ops (apply op w) (apply-IsOnce op w h)

  -- Whatever jobs are registered, dropped, paused and resumed, and however often ticks claim them, with
  -- whatever clocks, cron results and failures of handlers: no two calls of handlers have the same
  -- tenant and the same run id, which is made of the job's id and the time that was claimed.
  pub handled_once :
      (ops : List Op)
      → IsUnique
          (map (delivery_key iso) (run ops (record { jobs = []; runs = []; handled = [] })).handled)
  handled_once ops = (run-IsOnce ops (record { jobs = []; runs = []; handled = [] }) (tt, tt)).0
