-- ===== src/ExecLock/Fences.antt =====
-- Fences of the execution locks (apps/datacore/src/execlock.ts): what any interleaving of the
-- service's operations does to them.
use complete.Base.{
  ℕ, ◌+◌, ◌≤◌, ◌<◌, String, true, false, List, [], ◌∷◌, Option, some, ◌≡◌, refl, ◌⊎◌, inl, inr,
  arith, eq_iff,
}
use complete.Store.{key_of, find_key, mem_key, put}
use complete.Store.Laws.{find_key-put, find_key-key, find_key-put_self}
use complete.ExecLock.{
  ResourceKind, LockRecord, lock_entity, kind_name, lock_id, fence_or_zero, granted, try_acquire,
  acquired, stale_executor, current, acquire, heartbeat, assert_fence, request_rerun, consume_rerun,
  release, lease_ms,
}

-- A call of the service, with what its caller gives.
pub data Op : Type 0 where
  acquire_op : (tenant : String) (kind : ResourceKind) (key holder : String) → Op
  heartbeat_op : (tenant : String) (kind : ResourceKind) (key holder : String) (fence : ℕ) → Op
  rerun_op : (tenant : String) (kind : ResourceKind) (key : String) → Op
  consume_op : (tenant : String) (kind : ResourceKind) (key holder : String) → Op
  release_op : (tenant : String) (kind : ResourceKind) (key holder : String) → Op

-- A write that does not lower the fence at its own key lowers none.
put-fence_mono :
    (k : String) (x : LockRecord) (s : List LockRecord)
    → fence_or_zero (find_key (key_of x) s) ≤ x.fence
    → fence_or_zero (find_key k s) ≤ fence_or_zero (find_key k (put x s))
put-fence_mono k x s h = rw (find_key-put k x s) (ground (arith, eq_iff (key_of x) k))

-- The same where the write is of a record that was found, changed outside its key and fence.
update-fence_mono :
    (k k' : String) (lock x : LockRecord) (s : List LockRecord)
    → find_key k' s ≡ some lock
    → key_of x ≡ key_of lock
    → x.fence ≡ lock.fence
    → fence_or_zero (find_key k s) ≤ fence_or_zero (find_key k (put x s))
update-fence_mono k k' lock x s found same fence =
    let at_key : find_key (key_of x) s ≡ some lock =
      rw (same, find_key-key k' s lock found) found in
    put-fence_mono k x s (rw at_key (omega arith))

module _ (overrides : ResourceKind → Option ℕ) where
  -- Each operation at the time `now`; what it answers is dropped.
  unfoldable pub apply : ℕ → Op → List LockRecord → List LockRecord
  apply now (acquire_op t kind key holder) s = (acquire overrides t kind key holder now s).1
  apply now (heartbeat_op t kind key holder fence) s =
      (heartbeat overrides t kind key holder fence now s).1
  apply now (rerun_op t kind key) s = request_rerun overrides t kind key s
  apply now (consume_op t kind key holder) s = (consume_rerun overrides t kind key holder s).1
  apply now (release_op t kind key holder) s = release overrides t kind key holder s

  unfoldable pub run : List (ℕ × Op) → List LockRecord → List LockRecord
  run [] s = s
  run ((now, op) ∷ ops) s = run ops (apply now op s)

  unfoldable pub fence_at : String → ResourceKind → String → List LockRecord → ℕ
  unfolding current
  fence_at t kind key s = fence_or_zero (current overrides t kind key s)

  module _ (k t : String) (kind : ResourceKind) (key : String) (s : List LockRecord) where
    abbrev here : String
    here = mem_key t (lock_id (kind_name kind) key)

    acquire-fence_mono :
        (holder : String) (now : ℕ)
        → fence_or_zero (find_key k s)
          ≤ fence_or_zero (find_key k (acquire overrides t kind key holder now s).1)
    unfolding acquire try_acquire
    acquire-fence_mono holder now =
        let old = find_key here s in
        let ms = lease_ms overrides kind in
        let lock = granted t (kind_name kind) key holder ms now (fence_or_zero old + 1) in
        ground (arith, put-fence_mono k lock s)

    -- The other operations write at most one record, the current one with its key and fence kept.
    kept-fence_mono :
        (s' : List LockRecord) (change : LockRecord → LockRecord)
        → ((r : LockRecord) → (key_of (change r) ≡ key_of r) × ((change r).fence ≡ r.fence))
        → ((s' ≡ s) ⊎ ((r : LockRecord) × (find_key here s ≡ some r) × (s' ≡ put (change r) s)))
        → fence_or_zero (find_key k s) ≤ fence_or_zero (find_key k s')
    kept-fence_mono s' change keeps (inl same) = rw same (omega arith)
    kept-fence_mono s' change keeps (inr (r, found, written)) =
        rw written (update-fence_mono k here r (change r) s found (keeps r).0 (keeps r).1)

    heartbeat-fence_mono :
        (holder : String) (fence now : ℕ)
        → fence_or_zero (find_key k s)
          ≤ fence_or_zero (find_key k (heartbeat overrides t kind key holder fence now s).1)
    unfolding heartbeat
    heartbeat-fence_mono holder fence now =
        kept-fence_mono _ (λ r. record r { lease_until = now + lease_ms overrides kind })
          (λ r. (refl, refl)) (ground arith)

    request_rerun-fence_mono :
        fence_or_zero (find_key k s)
        ≤ fence_or_zero (find_key k (request_rerun overrides t kind key s))
    unfolding request_rerun
    request_rerun-fence_mono =
        kept-fence_mono _ (λ r. record r { rerun_requested = true }) (λ r. (refl, refl))
          (ground arith)

    consume_rerun-fence_mono :
        (holder : String)
        → fence_or_zero (find_key k s)
          ≤ fence_or_zero (find_key k (consume_rerun overrides t kind key holder s).1)
    unfolding consume_rerun
    consume_rerun-fence_mono holder =
        kept-fence_mono _ (λ r. record r { rerun_requested = false }) (λ r. (refl, refl))
          (ground arith)

    release-fence_mono :
        (holder : String)
        → fence_or_zero (find_key k s)
          ≤ fence_or_zero (find_key k (release overrides t kind key holder s))
    unfolding release
    release-fence_mono holder =
        kept-fence_mono _ (λ r. record r { lease_until = 0 }) (λ r. (refl, refl)) (ground arith)

  apply-fence_mono :
      (k : String) (now : ℕ) (op : Op) (s : List LockRecord)
      → fence_or_zero (find_key k s) ≤ fence_or_zero (find_key k (apply now op s))
  unfolding apply
  apply-fence_mono k now (acquire_op t kind key holder) s =
      acquire-fence_mono k t kind key s holder now
  apply-fence_mono k now (heartbeat_op t kind key holder fence) s =
      heartbeat-fence_mono k t kind key s holder fence now
  apply-fence_mono k now (rerun_op t kind key) s = request_rerun-fence_mono k t kind key s
  apply-fence_mono k now (consume_op t kind key holder) s =
      consume_rerun-fence_mono k t kind key s holder
  apply-fence_mono k now (release_op t kind key holder) s = release-fence_mono k t kind key s holder

  -- The fence of a lock never falls, whatever operations run at whatever times.
  pub run-fence_mono :
      (t : String) (kind : ResourceKind) (key : String) (ops : List (ℕ × Op)) (s : List LockRecord)
      → fence_at t kind key s ≤ fence_at t kind key (run ops s)
  unfolding run fence_at
  run-fence_mono t kind key [] s = omega arith
  run-fence_mono t kind key ((now, op) ∷ ops) s = omega (
    arith,
    apply-fence_mono (mem_key t (lock_id (kind_name kind) key)) now op s,
    run-fence_mono t kind key ops (apply now op s),
  )

  -- A granted acquisition raises the fence by one, and tells the new fence.
  pub acquire-fence :
      (t : String) (kind : ResourceKind) (key holder who : String) (now f until : ℕ)
      (s : List LockRecord)
      → (acquire overrides t kind key holder now s).0 ≡ acquired f who until
      → (f ≡ fence_at t kind key s + 1)
        × (fence_at t kind key (acquire overrides t kind key holder now s).1 ≡ f)
  unfolding acquire try_acquire fence_at
  acquire-fence t kind key holder who now f until s h =
      let k = mem_key t (lock_id (kind_name kind) key) in
      let old = find_key k s in
      let ms = lease_ms overrides kind in
      let lock = granted t (kind_name kind) key holder ms now (fence_or_zero old + 1) in
      ground (arith, find_key-put_self k lock s refl)

  module _ (t : String) (kind : ResourceKind) (key : String) where
    -- Two grants of one lock, with any operations between them, have fences that increase. So after
    -- the second grant, and any further operations, a write under the first fence is refused, and the
    -- refusal tells both fences.
    pub superseded-stale :
        (first_holder second_holder who who' : String) (now now' f f' until until' : ℕ)
        (between later : List (ℕ × Op)) (s : List LockRecord)
        → (acquire overrides t kind key first_holder now s).0 ≡ acquired f who until
        → let mid = run between (acquire overrides t kind key first_holder now s).1 in
          (acquire overrides t kind key second_holder now' mid).0 ≡ acquired f' who' until'
          → let end = run later (acquire overrides t kind key second_holder now' mid).1 in
            (f < f')
            × (f' ≤ fence_at t kind key end)
            × (assert_fence overrides t kind key f end ≡ stale_executor f (fence_at t kind key end))
    unfolding assert_fence
    superseded-stale h1 h2 who who' now now' f f' until until' between later s e e' =
        let s1 = (acquire overrides t kind key h1 now s).1 in
        let mid = run between s1 in
        let s2 = (acquire overrides t kind key h2 now' mid).1 in
        let end = run later s2 in
        let first = acquire-fence t kind key h1 who now f until s e in
        let second = acquire-fence t kind key h2 who' now' f' until' mid e' in
        let rises = run-fence_mono t kind key between s1 in
        let stays = run-fence_mono t kind key later s2 in
        (omega arith, omega arith, unfold fence_at in ground arith)
