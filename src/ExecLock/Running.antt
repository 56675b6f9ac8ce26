-- ===== src/ExecLock/Running.antt =====
-- Running work under a lock (apps/datacore/src/execlock.ts, `withLock`): what is run, how often, and
-- what is left of the lock, whether the work returns or throws.
use complete.Base.{
  ℕ, ◌+◌, String, Bool, true, false, List, Option, some, ◌≡◌, ◌≢◌, refl, ◌⊎◌, inl, inr, arith,
  str_eq, eq_iff, Option-cases, Bool-cases, ◌∙◌, sym, subst, ap, if◌then◌else◌,
}
use mathlib.Core.Bool.{false≢true}
use complete.Store.{key_of, find_key, mem_key, put}
use complete.Store.Laws.{find_key-key, find_key-put_self}
use complete.ExecLock.{
  ResourceKind, LockRecord, lock_entity, kind_name, lock_id, try_acquire, AcquireResult, acquired,
  skipped_already_running, current, acquire, heartbeat, request_rerun, consume_rerun, release,
  lease_ms, Outcome, skipped, finished, run_body, with_lock, holder_or_unknown,
}

AcquireResult-cases :
    (a : AcquireResult)
    → ((f : ℕ) × (who : String) × (until : ℕ) × (a ≡ acquired f who until))
      ⊎ ((other : String) × (a ≡ skipped_already_running other))
AcquireResult-cases (acquired f who until) = inl (f, who, until, refl)
AcquireResult-cases (skipped_already_running other) = inr (other, refl)

module _ (overrides : ResourceKind → Option ℕ) (t : String) (kind : ResourceKind)
    (key : String) where
  change-current :
      (lock x : LockRecord) (s : List LockRecord)
      → current overrides t kind key s ≡ some lock
      → key_of x ≡ key_of lock
      → current overrides t kind key (put x s) ≡ some x
  unfolding current
  change-current lock x s found same =
      let k = mem_key t (lock_id (kind_name kind) key) in
      find_key-put_self k x s (same ∙ find_key-key k s lock found)

  module _ (lock : LockRecord) (s : List LockRecord)
      (found : current overrides t kind key s ≡ some lock) where
    pub request_rerun-current :
        current overrides t kind key (request_rerun overrides t kind key s)
        ≡ some (record lock { rerun_requested = true })
    unfolding request_rerun
    request_rerun-current =
        let asked = change-current lock (record lock { rerun_requested = true }) s found refl in
        ground (arith, found, asked)

    -- The holder's question is answered by the flag, which is then cleared.
    pub consume_rerun-current :
        (holder : String)
        → lock.holder_id ≡ holder
        → ((consume_rerun overrides t kind key holder s).0 ≡ lock.rerun_requested)
          × (current overrides t kind key (consume_rerun overrides t kind key holder s).1
              ≡ some (record lock { rerun_requested = false }))
    unfolding consume_rerun
    consume_rerun-current holder own =
        let cleared = change-current lock (record lock { rerun_requested = false }) s found refl in
        ground (arith, found, eq_iff lock.holder_id holder, cleared)

  release-current :
      (holder : String) (lock : LockRecord) (s : List LockRecord)
      → current overrides t kind key s ≡ some lock
      → lock.holder_id ≡ holder
      → find_key (mem_key t (lock_id (kind_name kind) key)) (release overrides t kind key holder s)
        ≡ some (record lock { lease_until = 0 })
  unfolding release current
  release-current holder lock s found own =
      let freed = change-current lock (record lock { lease_until = 0 }) s found refl in
      ground (arith, found, eq_iff lock.holder_id holder, freed)

  -- After its holder's release a lock is free at once: the next acquisition, by anybody and at any
  -- time, is granted, under the next fence.
  pub release-acquire :
      (holder next : String) (now : ℕ) (lock : LockRecord) (s : List LockRecord)
      → current overrides t kind key s ≡ some lock
      → lock.holder_id ≡ holder
      → (acquire overrides t kind key next now (release overrides t kind key holder s)).0
        ≡ acquired (lock.fence + 1) next (now + lease_ms overrides kind)
  unfolding acquire try_acquire
  release-acquire holder next now lock s found own =
      ground (arith, release-current holder lock s found own)

  -- A release by anybody else changes nothing.
  pub release_other :
      (holder : String) (lock : LockRecord) (s : List LockRecord)
      → current overrides t kind key s ≡ some lock
      → lock.holder_id ≢ holder
      → release overrides t kind key holder s ≡ s
  unfolding current release
  release_other holder lock s found other = ground (arith, found, eq_iff lock.holder_id holder)

  -- A renewal is granted to the current holder under the current fence, and then the lease runs from
  -- the renewal. To any other holder, or under another fence, it is refused and changes nothing.
  pub heartbeat_lem :
      (holder : String) (fence now : ℕ) (lock : LockRecord) (s : List LockRecord)
      → current overrides t kind key s ≡ some lock
      → let (renewed, s') = heartbeat overrides t kind key holder fence now s in
        ((lock.holder_id ≡ holder) × (lock.fence ≡ fence)
          → (renewed ≡ true)
            × (current overrides t kind key s'
                ≡ some (record lock { lease_until = now + lease_ms overrides kind })))
        × ((lock.holder_id ≢ holder) ⊎ (lock.fence ≢ fence) → (renewed ≡ false) × (s' ≡ s))
  unfolding heartbeat
  heartbeat_lem holder fence now lock s found =
      let lease = now + lease_ms overrides kind in
      let longer = change-current lock (record lock { lease_until = lease }) s found refl in
      let same = eq_iff lock.holder_id holder in
      (λ own. ground (arith, found, same, own, longer), λ other. ground (arith, found, same, other))

  release-freed :
      (holder : String) (lock : LockRecord) (s : List LockRecord)
      → current overrides t kind key (release overrides t kind key holder s) ≡ some lock
      → lock.holder_id ≡ holder
      → lock.lease_until ≡ 0
  release-freed holder lock s after own = elim (Option-cases (current overrides t kind key s)) [
    | inl free ↦ unfold release current in ground arith
    | inr (old, found) ↦ elim (Bool-cases (str_eq old.holder_id holder)) [
      | inl e ↦
          let freed = release-current holder old s found ((eq_iff old.holder_id holder).0 e) in
          unfold current in ground arith
      | inr e ↦
          let other : old.holder_id ≢ holder =
            λ same. false≢true (sym e ∙ (eq_iff old.holder_id holder).1 same) in
          let kept = release_other holder old s found other in
          let is_old : some old ≡ some lock =
            sym found ∙ subst (λ u. current overrides t kind key u ≡ some lock) kept after in
          let same : old ≡ lock = cc in
          absurd (other (ap (λ (r : LockRecord). r.holder_id) same ∙ own))
    ]
  ]

  module _ {T : Type 0} (fn : ℕ → String → List LockRecord → Outcome T × List LockRecord)
      (holder : String) (rerun_on_skip : Bool) (now : ℕ) (s : List LockRecord) where
    -- Whatever the work did, and whether it returned or threw, the lock is free when `withLock` is
    -- through, unless another holder has taken it meanwhile.
    pub with_lock-released :
        (r : Outcome T) (lock : LockRecord)
        → let (ran, s') = with_lock overrides fn t kind key holder rerun_on_skip now s in
          ran ≡ finished r
          → current overrides t kind key s' ≡ some lock
          → lock.holder_id ≡ holder
          → lock.lease_until ≡ 0
    unfolding with_lock
    with_lock-released r lock ran after own =
        let (acq, s1) = acquire overrides t kind key holder now s in
        elim (AcquireResult-cases acq) [
          | inl (f, who, until, e) ↦
              let body = run_body overrides fn t kind key holder f s1 in
              ground (arith, e, release-freed holder lock body.1)
          | inr (other, e) ↦ ground (arith, e)
        ]

    -- Where the lock is held, nothing of the work runs: the answer names the holder, and the store
    -- is as it was, but for the request of a rerun where the caller asked for one.
    pub with_lock-skipped :
        (other : String)
        → let (ran, s') = with_lock overrides fn t kind key holder rerun_on_skip now s in
          ran ≡ skipped other
          → (other ≡ holder_or_unknown (current overrides t kind key s))
            × (s' ≡ (if rerun_on_skip then request_rerun overrides t kind key s else s))
    unfolding with_lock acquire try_acquire current
    with_lock-skipped other ran = ground arith
