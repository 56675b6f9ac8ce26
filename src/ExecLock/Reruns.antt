-- ===== src/ExecLock/Reruns.antt =====
-- Requests for a rerun (apps/datacore/src/execlock.ts, `requestRerun` and `consumeRerun`) among the other
-- operations on the locks.
use complete.Base.{
  ℕ, ◌+◌, ◌<◌, String, true, false, List, [], ◌∷◌, Option, ◌≡◌, ◌≢◌, inl, inr, arith, eq_iff, All,
  Any, sym, ◌∙◌, subst, refl, str_eq,
}
use mathlib.Core.Bool.{false≢true}
use complete.Store.{mem_key}
use complete.Store.Keys.{HasNoNul}
use complete.ExecLock.{
  ResourceKind, LockRecord, lock_entity, kind_name, lock_id, acquired, current, acquire, heartbeat,
  request_rerun, consume_rerun, release, lease_ms,
}
use complete.ExecLock.Changes.{IsAt, put-IsAt, kept-IsAt}
use complete.ExecLock.Fences.{
  Op, acquire_op, heartbeat_op, rerun_op, consume_op, release_op, apply, run,
}
use complete.ExecLock.Exclusion.{
  here, IsHeld, IsTimely, acquire_outcome, held_while, new_lock, apply-IsHeld, acquired-IsHeld,
}
use complete.ExecLock.Running.{request_rerun-current, consume_rerun-current}

-- Nobody asks in the holder's name whether to run again.
abbrev pub IsQuiet : String → ℕ × Op → Type 0
IsQuiet h (now, consume_op t k key holder) = holder ≢ h
IsQuiet h (now, acquire_op t k key holder) = Unit
IsQuiet h (now, heartbeat_op t k key holder fence) = Unit
IsQuiet h (now, rerun_op t k key) = Unit
IsQuiet h (now, release_op t k key holder) = Unit

module _ (overrides : ResourceKind → Option ℕ) (t : String) (kind : ResourceKind) (key h : String)
    (f start : ℕ) where
  abbrev at : String
  at = here overrides t kind key h f start

  -- The record at the lock's key is the holder's, and a rerun is asked for.
  abbrev IsAsked : List LockRecord → Type 0
  IsAsked = IsAt at (λ r. (r.holder_id ≡ h) × (r.rerun_requested ≡ true))

  abbrev Held : List LockRecord → Type 0
  Held = IsHeld overrides t kind key h f start

  module _ (s : List LockRecord) (asked : IsAsked s) (t' : String) (kind' : ResourceKind)
      (key' : String) where
    abbrev there : String
    there = mem_key t' (lock_id (kind_name kind') key')

    heartbeat-IsAsked :
        (holder : String) (fence now : ℕ)
        → IsAsked (heartbeat overrides t' kind' key' holder fence now s).1
    unfolding heartbeat
    heartbeat-IsAsked holder fence now =
        kept-IsAt at _ there s _ (λ r. record r { lease_until = now + lease_ms overrides kind' })
          (λ r. Unit {0}) asked (λ r. refl) (λ r _ good. good) (ground arith)

    request_rerun-IsAsked : IsAsked (request_rerun overrides t' kind' key' s)
    unfolding request_rerun
    request_rerun-IsAsked =
        kept-IsAt at _ there s _ (λ r. record r { rerun_requested = true }) (λ r. Unit {0}) asked
          (λ r. refl) (λ r _ good. (good.0, refl)) (ground arith)

    consume_rerun-IsAsked :
        (holder : String) → holder ≢ h → IsAsked (consume_rerun overrides t' kind' key' holder s).1
    unfolding consume_rerun
    consume_rerun-IsAsked holder ne =
        kept-IsAt at _ there s _ (λ r. record r { rerun_requested = false })
          (λ r. str_eq r.holder_id holder ≡ true) asked (λ r. refl)
          (λ r fits good. absurd (ne (sym ((eq_iff r.holder_id holder).0 fits) ∙ good.0)))
          (ground arith)

    release-IsAsked : (holder : String) → IsAsked (release overrides t' kind' key' holder s)
    unfolding release
    release-IsAsked holder =
        kept-IsAt at _ there s _ (λ r. record r { lease_until = 0 }) (λ r. Unit {0}) asked
          (λ r. refl) (λ r _ good. good) (ground arith)

    acquire-IsAsked :
        (holder : String) (now : ℕ)
        → Held s
        → HasNoNul t
        → HasNoNul t'
        → now < start + lease_ms overrides kind
        → IsAsked (acquire overrides t' kind' key' holder now s).1
    unfolding new_lock
    acquire-IsAsked holder now held nul nul' lt =
        let busy = held_while overrides t kind key h f start s held t' kind' key' now in
        elim (acquire_outcome overrides t kind key h f start s held t' kind' key' holder now) [
          | inl e ↦ subst IsAsked (sym e) asked
          | inr (free, e) ↦ subst IsAsked (sym e) (
              put-IsAt at _ _ s asked
                λ same. absurd (false≢true (sym free ∙ busy same nul nul' lt)))
        ]

  abbrev Timely : ℕ × Op → Type 0
  Timely = IsTimely overrides t kind key h f start

  apply-IsAsked :
      (now : ℕ) (op : Op) (s : List LockRecord)
      → HasNoNul t
      → Timely (now, op)
      → IsQuiet h (now, op)
      → Held s
      → IsAsked s
      → IsAsked (apply overrides now op s)
  unfolding apply
  apply-IsAsked now (acquire_op t' k key' holder) s nul (le, lt, nul') _ held asked =
      acquire-IsAsked s asked t' k key' holder now held nul nul' lt
  apply-IsAsked now (heartbeat_op t' k key' holder fence) s nul _ _ held asked =
      heartbeat-IsAsked s asked t' k key' holder fence now
  apply-IsAsked now (rerun_op t' k key') s nul _ _ held asked =
      request_rerun-IsAsked s asked t' k key'
  apply-IsAsked now (consume_op t' k key' holder) s nul _ ne held asked =
      consume_rerun-IsAsked s asked t' k key' holder ne
  apply-IsAsked now (release_op t' k key' holder) s nul _ _ held asked =
      release-IsAsked s asked t' k key' holder

  run-IsAsked :
      (ops : List (ℕ × Op)) (s : List LockRecord)
      → HasNoNul t
      → All Timely ops
      → All (IsQuiet h) ops
      → Held s
      → IsAsked s
      → IsAsked (run overrides ops s)
  unfolding run
  run-IsAsked [] s nul timely quiet held asked = asked
  run-IsAsked ((now, op) ∷ ops) s nul timely quiet held asked =
      run-IsAsked ops (apply overrides now op s) nul timely.1 quiet.1
        (apply-IsHeld overrides t kind key h f start now op s nul timely.0 held)
        (apply-IsAsked now op s nul timely.0 quiet.0 held asked)

  abbrev pub IsRequest : ℕ × Op → Type 0
  IsRequest (now, op) = op ≡ rerun_op t kind key

  requested-IsAsked :
      (now : ℕ) (s : List LockRecord)
      → Held s
      → IsAsked (apply overrides now (rerun_op t kind key) s)
  unfolding apply current
  requested-IsAsked now s (lock, found, good) = (
    record lock { rerun_requested = true },
    request_rerun-current overrides t kind key lock s found,
    (good.holder, refl),
  )

  request-IsAsked :
      (ops : List (ℕ × Op)) (s : List LockRecord)
      → HasNoNul t
      → All Timely ops
      → All (IsQuiet h) ops
      → Any IsRequest ops
      → Held s
      → IsAsked (run overrides ops s)
  unfolding run
  request-IsAsked [] s nul timely quiet asks held = absurd asks
  request-IsAsked ((now, op) ∷ ops) s nul timely quiet asks held =
      let held' = apply-IsHeld overrides t kind key h f start now op s nul timely.0 held in
      elim asks [
        | inl e ↦
            run-IsAsked ops (apply overrides now op s) nul timely.1 quiet.1 held'
              (rw e (requested-IsAsked now s held))
        | inr later ↦
            request-IsAsked ops (apply overrides now op s) nul timely.1 quiet.1 later held'
      ]

  -- However many requests for a rerun of a lock come while its lease runs, one at least, and whatever
  -- the others do between them (the holder renews, but does not release and does not ask), they come to
  -- one rerun: the holder's next question is answered yes, and the one directly after it no.
  -- (No tenant id holds the character of code 0.)
  pub consume_rerun_once :
      (who : String) (until : ℕ) (ops : List (ℕ × Op)) (s : List LockRecord)
      → HasNoNul t
      → (acquire overrides t kind key h start s).0 ≡ acquired f who until
      → All Timely ops
      → All (IsQuiet h) ops
      → Any IsRequest ops
      → let s1 = run overrides ops (acquire overrides t kind key h start s).1 in
        let (first, s2) = consume_rerun overrides t kind key h s1 in
        (first ≡ true) × ((consume_rerun overrides t kind key h s2).0 ≡ false)
  unfolding current
  consume_rerun_once who until ops s nul e timely quiet asks =
      let s1 = run overrides ops (acquire overrides t kind key h start s).1 in
      let held = acquired-IsHeld overrides t kind key h f start who until s e in
      let (lock, found, (own, flag)) = request-IsAsked ops _ nul timely quiet asks held in
      let (first, e2) = consume_rerun-current overrides t kind key lock s1 found h own in
      let cleared = record lock { rerun_requested = false } in
      let s2 = (consume_rerun overrides t kind key h s1).1 in
      (first ∙ flag, (consume_rerun-current overrides t kind key cleared s2 e2 h own).0)
