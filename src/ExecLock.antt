-- ===== src/ExecLock.antt =====
-- Pipeline execution locks (apps/datacore/src/execlock.ts, and `MemExecutionLockStore` of
-- apps/datacore/src/repo/memory.ts). The store is explicit state; times are milliseconds since the
-- epoch (the ISO texts of the source are of fixed width, so they order as these numbers do), and each
-- reading of the clock is an argument. Counters of the metrics registry are left out.
mod Tests
pub mod Changes
pub mod Exclusion
pub mod Fences
pub mod Reruns
pub mod Running
use Prim.Native.String
use complete.Base.{
  ℕ, ◌+◌, ◌*◌, String, Bool, true, false, not, ◌||◌, List, Option, none, some, if◌then◌else◌, ltb,
  ◌==◌, str_eq,
}
use complete.Store.{Entity, get, put}

pub data ResourceKind : Type 0 where
  derivation_spec connection_sync forge_generate materialize replay bundle_import : ResourceKind

abbrev pub kind_name : ResourceKind → String
kind_name derivation_spec = "derivation_spec"
kind_name connection_sync = "connection_sync"
kind_name forge_generate = "forge_generate"
kind_name materialize = "materialize"
kind_name replay = "replay"
kind_name bundle_import = "bundle_import"

pub record LockRecord : Type 0 where
  pub id : String
  pub tenant_id : String
  pub resource_kind : String
  pub resource_key : String
  pub holder_id : String
  pub acquired_at : ℕ
  pub lease_until : ℕ
  pub fence : ℕ
  pub rerun_requested : Bool

instance abbrev pub lock_entity : Entity LockRecord
lock_entity = record { tenant_id = λ r. r.tenant_id; id = λ r. r.id }

abbrev pub default_lease_ms : ResourceKind → ℕ
default_lease_ms derivation_spec = 5 * 60000 * 2
default_lease_ms connection_sync = 30 * 60000 * 2
default_lease_ms forge_generate = 15 * 60000 * 2
default_lease_ms materialize = 10 * 60000 * 2
default_lease_ms replay = 30 * 60000 * 2
default_lease_ms bundle_import = 30 * 60000 * 2

-- `${kind}|${key}`
unfoldable pub lock_id : String → String → String
lock_id kind key = String.◌++◌ kind (String.◌++◌ "|" key)

abbrev pub fence_or_zero : Option LockRecord → ℕ
fence_or_zero none = 0
fence_or_zero (some r) = r.fence

-- `existing && existing.tenantId === tenantId && leaseUntil > now`
abbrev is_held : Option LockRecord → String → ℕ → Bool
is_held none tenant now = false
is_held (some r) tenant now = if str_eq r.tenant_id tenant then ltb now r.lease_until else false

abbrev granted : String → String → String → String → ℕ → ℕ → ℕ → LockRecord
granted tenant kind key holder lease now fence = record {
  id = lock_id kind key;
  tenant_id = tenant;
  resource_kind = kind;
  resource_key = key;
  holder_id = holder;
  acquired_at = now;
  lease_until = now + lease;
  fence = fence;
  rerun_requested = false;
}

unfoldable pub try_acquire :
    String
    → String
    → String
    → String
    → ℕ
    → ℕ
    → List LockRecord
    → Option LockRecord × List LockRecord
try_acquire tenant kind key holder lease now s =
    let existing = get tenant (lock_id kind key) s in
    let lock = granted tenant kind key holder lease now (fence_or_zero existing + 1) in
    if is_held existing tenant now then (none, s) else (some lock, put lock s)

pub data AcquireResult : Type 0 where
  acquired : (fence : ℕ) (holder_id : String) (lease_until : ℕ) → AcquireResult
  skipped_already_running : (holder_id : String) → AcquireResult

-- `current?.holderId ?? "unknown"`
abbrev pub holder_or_unknown : Option LockRecord → String
holder_or_unknown none = "unknown"
holder_or_unknown (some r) = r.holder_id

-- What a write under a stale fence is answered: `StaleExecutorError`.
pub data FenceCheck : Type 0 where
  fence_ok : FenceCheck
  stale_executor : (attempted current : ℕ) → FenceCheck

-- `fn` of `withLock`: it returns, or it throws.
pub data Outcome (T : Type 0) : Type 0 where
  returned : T → Outcome T
  threw : String → Outcome T

pub data LockRun (T : Type 0) : Type 0 where
  skipped : (holder_id : String) → LockRun T
  finished : Outcome T → LockRun T

-- The service, over the constructor's `leaseOverrides`.
module _ (overrides : ResourceKind → Option ℕ) where
  pub lease_ms : ResourceKind → ℕ
  lease_ms kind = elim (overrides kind) [ none ↦ default_lease_ms kind | some ms ↦ ms ]

  unfoldable pub current : String → ResourceKind → String → List LockRecord → Option LockRecord
  current tenant kind key s = get tenant (lock_id (kind_name kind) key) s

  unfoldable pub acquire :
      String
      → ResourceKind
      → String
      → String
      → ℕ
      → List LockRecord
      → AcquireResult × List LockRecord
  unfolding current
  acquire tenant kind key holder now s =
      let (lock, s') = try_acquire tenant (kind_name kind) key holder (lease_ms kind) now s in
      elim lock [
        | none ↦ (skipped_already_running (holder_or_unknown (current tenant kind key s')), s')
        | some l ↦ (acquired l.fence holder l.lease_until, s')
      ]

  unfoldable pub heartbeat :
      String → ResourceKind → String → String → ℕ → ℕ → List LockRecord → Bool × List LockRecord
  unfolding current
  heartbeat tenant kind key holder fence now s = elim (current tenant kind key s) [
    | none ↦ (false, s)
    | some lock ↦
        if not (str_eq lock.holder_id holder) || not (lock.fence == fence)
        then (false, s)
        else (true, put (record lock { lease_until = now + lease_ms kind }) s)
  ]

  unfoldable pub assert_fence : String → ResourceKind → String → ℕ → List LockRecord → FenceCheck
  unfolding current
  assert_fence tenant kind key fence s =
      let current_fence = fence_or_zero (current tenant kind key s) in
      if ltb fence current_fence then stale_executor fence current_fence else fence_ok

  unfoldable pub request_rerun : String → ResourceKind → String → List LockRecord → List LockRecord
  unfolding current
  request_rerun tenant kind key s = elim (current tenant kind key s) [
    | none ↦ s
    | some lock ↦ put (record lock { rerun_requested = true }) s
  ]

  unfoldable pub consume_rerun :
      String → ResourceKind → String → String → List LockRecord → Bool × List LockRecord
  unfolding current
  consume_rerun tenant kind key holder s = elim (current tenant kind key s) [
    | none ↦ (false, s)
    | some lock ↦
        if not (str_eq lock.holder_id holder) || not lock.rerun_requested
        then (false, s)
        else (true, put (record lock { rerun_requested = false }) s)
  ]

  unfoldable pub release :
      String → ResourceKind → String → String → List LockRecord → List LockRecord
  unfolding current
  release tenant kind key holder s = elim (current tenant kind key s) [
    | none ↦ s
    | some lock ↦
        if str_eq lock.holder_id holder then put (record lock { lease_until = 0 }) s else s
  ]

  -- `fn` may do anything to the store: its transformation includes what the heartbeat timer and
  -- the other executors do while it runs.
  module _ {T : Type 0} (fn : ℕ → String → List LockRecord → Outcome T × List LockRecord) where
    -- The body of the `try`, with the rerun at most once; a throw skips what is left of it.
    unfoldable pub run_body :
        String → ResourceKind → String → String → ℕ → List LockRecord → Outcome T × List LockRecord
    run_body tenant kind key holder fence s =
        let (first, s1) = fn fence holder s in
        elim first [
          | threw e ↦ (threw e, s1)
          | returned a ↦
              let (again, s2) = consume_rerun tenant kind key holder s1 in
              if again then fn fence holder s2 else (returned a, s2)
        ]

    unfoldable pub with_lock :
        String
        → ResourceKind
        → String
        → String
        → Bool
        → ℕ
        → List LockRecord
        → LockRun T × List LockRecord
    with_lock tenant kind key holder rerun_on_skip now s =
        let (acq, s') = acquire tenant kind key holder now s in
        elim acq [
          | skipped_already_running other ↦
              (skipped other, if rerun_on_skip then request_rerun tenant kind key s' else s')
          | acquired fence _ _ ↦
              let (result, s2) = run_body tenant kind key holder fence s' in
              (finished result, release tenant kind key holder s2)
        ]
