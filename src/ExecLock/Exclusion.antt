-- ===== src/ExecLock/Exclusion.antt =====
-- Mutual exclusion by leases (apps/datacore/src/execlock.ts, `acquire`, `heartbeat`, `release`):
-- how long a granted lock stays its holder's among the operations of the others.
use complete.Base.{
  ℕ, ◌+◌, ◌≤◌, ◌<◌, String, true, false, List, [], ◌∷◌, Option, ◌≡◌, ◌≢◌, refl, ◌⊎◌, inl, inr,
  arith, str_eq, eq_iff, All, sym, ◌∙◌, subst,
}
use mathlib.Core.Bool.{false≢true}
use complete.Store.{find_key, mem_key, put}
use complete.Store.Keys.{HasNoNul, mem_key-injective}
use complete.Store.Laws.{find_key-put_self}
use complete.ExecLock.{
  ResourceKind, LockRecord, lock_entity, kind_name, lock_id, fence_or_zero, granted, is_held,
  try_acquire, acquired, skipped_already_running, current, acquire, heartbeat, request_rerun,
  consume_rerun, release, lease_ms,
}
use complete.ExecLock.Changes.{IsAt, put-IsAt, kept-IsAt}
use complete.ExecLock.Fences.{
  Op, acquire_op, heartbeat_op, rerun_op, consume_op, release_op, apply, run,
}

-- What a holder's own code does, and nobody else in its name, since the id is fresh: it renews the
-- lease of its own kind of resource, and before its work ends it does not release.
abbrev pub IsLoyal : String → ResourceKind → Op → Type 0
IsLoyal h kind (acquire_op t k key holder) = HasNoNul t
IsLoyal h kind (heartbeat_op t k key holder fence) = (k ≡ kind) ⊎ (holder ≢ h)
IsLoyal h kind (rerun_op t k key) = Unit
IsLoyal h kind (consume_op t k key holder) = Unit
IsLoyal h kind (release_op t k key holder) = holder ≢ h

module _ (overrides : ResourceKind → Option ℕ) where
  module _ (t : String) (kind : ResourceKind) (key h : String) (f start : ℕ) where
    abbrev pub here : String
    here = mem_key t (lock_id (kind_name kind) key)

    pub record Holds (lock : LockRecord) : Type 0 where
      pub tenant : lock.tenant_id ≡ t
      pub holder : lock.holder_id ≡ h
      pub fence : lock.fence ≡ f
      pub lease : start + lease_ms overrides kind ≤ lock.lease_until

    -- The record at the lock's key is the holder's, of the granted fence, with a lease that runs at
    -- least for the lease time from `start`.
    abbrev pub IsHeld : List LockRecord → Type 0
    IsHeld = IsAt here Holds

    module _ (s : List LockRecord) (held : IsHeld s) (t' : String) (kind' : ResourceKind)
        (key' : String) where
      abbrev there : String
      there = mem_key t' (lock_id (kind_name kind') key')

      heartbeat-IsHeld :
          (holder : String) (fence now : ℕ)
          → start ≤ now
          → (kind' ≡ kind) ⊎ (holder ≢ h)
          → IsHeld (heartbeat overrides t' kind' key' holder fence now s).1
      unfolding heartbeat
      heartbeat-IsHeld holder fence now le loyal =
          kept-IsAt here Holds there s _
            (λ r. record r { lease_until = now + lease_ms overrides kind' })
            (λ r. str_eq r.holder_id holder ≡ true) held (λ r. refl)
            (λ r fits good. record {
              tenant = good.tenant;
              holder = good.holder;
              fence = good.fence;
              lease = ground (arith, eq_iff r.holder_id holder, good.holder);
            })
            (ground arith)

      request_rerun-IsHeld : IsHeld (request_rerun overrides t' kind' key' s)
      unfolding request_rerun
      request_rerun-IsHeld =
          kept-IsAt here Holds there s _ (λ r. record r { rerun_requested = true }) (λ r. Unit {0})
            held (λ r. refl) (λ r _ good. ground arith) (ground arith)

      consume_rerun-IsHeld :
          (holder : String) → IsHeld (consume_rerun overrides t' kind' key' holder s).1
      unfolding consume_rerun
      consume_rerun-IsHeld holder =
          kept-IsAt here Holds there s _ (λ r. record r { rerun_requested = false }) (λ r. Unit {0})
            held (λ r. refl) (λ r _ good. ground arith) (ground arith)

      release-IsHeld :
          (holder : String) → holder ≢ h → IsHeld (release overrides t' kind' key' holder s)
      unfolding release
      release-IsHeld holder ne =
          kept-IsAt here Holds there s _ (λ r. record r { lease_until = 0 })
            (λ r. str_eq r.holder_id holder ≡ true) held (λ r. refl)
            (λ r fits good. absurd (ne (sym ((eq_iff r.holder_id holder).0 fits) ∙ good.holder)))
            (ground arith)

      unfoldable pub new_lock : String → ℕ → LockRecord
      new_lock holder now =
          let fence = fence_or_zero (find_key there s) + 1 in
          granted t' (kind_name kind') key' holder (lease_ms overrides kind') now fence

      -- An acquisition leaves the store, or writes a new lock where none is held.
      pub acquire_outcome :
          (holder : String) (now : ℕ)
          → let s' = (acquire overrides t' kind' key' holder now s).1 in
            (s' ≡ s)
            ⊎ ((is_held (find_key there s) t' now ≡ false) × (s' ≡ put (new_lock holder now) s))
      unfolding acquire try_acquire new_lock
      acquire_outcome holder now = ground arith

      -- While the lease runs, an acquisition of the lock finds it held.
      pub held_while :
          (now : ℕ)
          → there ≡ here
          → HasNoNul t
          → HasNoNul t'
          → now < start + lease_ms overrides kind
          → is_held (find_key there s) t' now ≡ true
      held_while now same nul nul' lt =
          let id' = lock_id (kind_name kind') key' in
          let one : t' ≡ t =
            mem_key-injective t' t id' (lock_id (kind_name kind) key) nul' nul same in
          let (lock, found, good) = held in
          rw same (rw found (ground (arith, eq_iff lock.tenant_id t', good.tenant, good.lease)))

      acquire-IsHeld :
          (holder : String) (now : ℕ)
          → HasNoNul t
          → HasNoNul t'
          → now < start + lease_ms overrides kind
          → IsHeld (acquire overrides t' kind' key' holder now s).1
      unfolding new_lock
      acquire-IsHeld holder now nul nul' lt = elim (acquire_outcome holder now) [
        | inl e ↦ subst IsHeld (sym e) held
        | inr (free, e) ↦ subst IsHeld (sym e) (
            put-IsAt here Holds (new_lock holder now) s held
              λ same. absurd (false≢true (sym free ∙ held_while now same nul nul' lt)))
      ]

    -- What an operation of another, or the holder's own renewal, leaves of the lock.
    abbrev pub IsTimely : ℕ × Op → Type 0
    IsTimely (now, op) = (start ≤ now) × (now < start + lease_ms overrides kind) × IsLoyal h kind op

    pub apply-IsHeld :
        (now : ℕ) (op : Op) (s : List LockRecord)
        → HasNoNul t
        → IsTimely (now, op)
        → IsHeld s
        → IsHeld (apply overrides now op s)
    unfolding apply
    apply-IsHeld now (acquire_op t' k key' holder) s nul (le, lt, nul') held =
        acquire-IsHeld s held t' k key' holder now nul nul' lt
    apply-IsHeld now (heartbeat_op t' k key' holder fence) s nul (le, lt, loyal) held =
        heartbeat-IsHeld s held t' k key' holder fence now le loyal
    apply-IsHeld now (rerun_op t' k key') s nul _ held = request_rerun-IsHeld s held t' k key'
    apply-IsHeld now (consume_op t' k key' holder) s nul _ held =
        consume_rerun-IsHeld s held t' k key' holder
    apply-IsHeld now (release_op t' k key' holder) s nul (le, lt, loyal) held =
        release-IsHeld s held t' k key' holder loyal

    run-IsHeld :
        (ops : List (ℕ × Op)) (s : List LockRecord)
        → HasNoNul t
        → All IsTimely ops
        → IsHeld s
        → IsHeld (run overrides ops s)
    unfolding run
    run-IsHeld [] s nul timely held = held
    run-IsHeld ((now, op) ∷ ops) s nul timely held =
        run-IsHeld ops (apply overrides now op s) nul timely.1
          (apply-IsHeld now op s nul timely.0 held)

    -- A granted lock is held by its holder.
    pub acquired-IsHeld :
        (who : String) (until : ℕ) (s : List LockRecord)
        → (acquire overrides t kind key h start s).0 ≡ acquired f who until
        → IsHeld (acquire overrides t kind key h start s).1
    unfolding acquire try_acquire
    acquired-IsHeld who until s e =
        let fence = fence_or_zero (find_key here s) + 1 in
        let lock = granted t (kind_name kind) key h (lease_ms overrides kind) start fence in
        (lock, ground (arith, find_key-put_self here lock s refl), ground arith)

    held-skips :
        (s : List LockRecord) (now : ℕ) (other : String)
        → HasNoNul t
        → now < start + lease_ms overrides kind
        → IsHeld s
        → acquire overrides t kind key other now s ≡ (skipped_already_running h, s)
    unfolding acquire try_acquire current
    held-skips s now other nul lt held =
        let (lock, found, good) = held in
        let busy = held_while s held t kind key now refl nul nul lt in
        ground (arith, busy, found, good.holder)

    -- While its lease runs, and until its holder releases it, a granted lock excludes every other
    -- executor, however their operations interleave: an acquisition by anybody is skipped, names the
    -- holder, and changes nothing. (No tenant id holds the character of code 0.)
    pub acquire_exclusive :
        (who : String) (until now : ℕ) (other : String) (ops : List (ℕ × Op)) (s : List LockRecord)
        → HasNoNul t
        → (acquire overrides t kind key h start s).0 ≡ acquired f who until
        → All IsTimely ops
        → start ≤ now
        → now < start + lease_ms overrides kind
        → let s' = run overrides ops (acquire overrides t kind key h start s).1 in
          acquire overrides t kind key other now s' ≡ (skipped_already_running h, s')
    acquire_exclusive who until now other ops s nul e timely le lt =
        held-skips _ now other nul lt (run-IsHeld ops _ nul timely (acquired-IsHeld who until s e))
