-- ===== src/ExecLock/Tests.antt =====
-- Runs of the execution locks (apps/datacore/src/execlock.ts).
use complete.Base.{inl, List, ℕ, ◌≤◌, ◌<◌, true, false, [], ◌∷◌, Option, none, ◌≡◌, refl, arith}
use complete.Store.{find_key, mem_key, put}
use complete.ExecLock.{
  ResourceKind, replay, LockRecord, lock_entity, lock_id, acquired, skipped_already_running,
  stale_executor, acquire, assert_fence, consume_rerun, try_acquire, lease_ms,
}
use complete.ExecLock.Fences.{
  Op, heartbeat_op, acquire_op, rerun_op, fence_at, run, superseded-stale,
}
use complete.ExecLock.Exclusion.{acquire_exclusive}
use complete.ExecLock.Reruns.{consume_rerun_once}

abbrev no_overrides : ResourceKind → Option ℕ
no_overrides kind = none

abbrev first_lock : LockRecord
first_lock = record {
  id = "replay|plan";
  tenant_id = "t";
  resource_kind = "replay";
  resource_key = "plan";
  holder_id = "one";
  acquired_at = 5;
  lease_until = 3600005;
  fence = 1;
  rerun_requested = false;
}

first_grant : (acquire no_overrides "t" replay "plan" "one" 5 []).0 ≡ acquired 1 "one" 3600005
unfolding acquire try_acquire find_key put mem_key lock_id lease_ms
first_grant = refl

-- The lease of the first holder is over when the second comes.
second_grant :
    (acquire no_overrides "t" replay "plan" "two" 4000000
      (run no_overrides [] (acquire no_overrides "t" replay "plan" "one" 5 []).1)).0
    ≡ acquired 2 "two" 7600000
unfolding acquire try_acquire find_key put mem_key lock_id lease_ms run
second_grant = refl

superseded-stale_example :
    let mid = run no_overrides [] (acquire no_overrides "t" replay "plan" "one" 5 []).1 in
    let end = run no_overrides [] (acquire no_overrides "t" replay "plan" "two" 4000000 mid).1 in
    (1 < 2)
    × (2 ≤ fence_at no_overrides "t" replay "plan" end)
    × (assert_fence no_overrides "t" replay "plan" 1 end
        ≡ stale_executor 1 (fence_at no_overrides "t" replay "plan" end))
superseded-stale_example =
    superseded-stale no_overrides "t" replay "plan" "one" "two" "one" "two" 5 4000000 1 2 3600005
      7600000 [] [] [] first_grant second_grant

acquire_exclusive_example :
    let s' =
      run no_overrides
        ((6, rerun_op "t" replay "plan") ∷ [])
        (acquire no_overrides "t" replay "plan" "one" 5 []).1 in
    acquire no_overrides "t" replay "plan" "two" 100 s' ≡ (skipped_already_running "one", s')
unfolding lease_ms
acquire_exclusive_example =
    acquire_exclusive no_overrides "t" replay "plan" "one" 1 5 "one" 3600005 100 "two"
      ((6, rerun_op "t" replay "plan") ∷ []) [] (ground arith, tt) first_grant
      ((omega arith, omega arith, tt), tt) (omega arith) (omega arith)

-- Two requests, a renewal, an acquisition that is skipped and a third request.
abbrev meanwhile : List (ℕ × Op)
meanwhile =
    (6, rerun_op "t" replay "plan")
    ∷ (6, rerun_op "t" replay "plan")
    ∷ (7, heartbeat_op "t" replay "plan" "one" 1)
    ∷ (8, acquire_op "t" replay "plan" "two")
    ∷ (9, rerun_op "t" replay "plan")
    ∷ []

consume_rerun_once_example :
    let s1 = run no_overrides meanwhile (acquire no_overrides "t" replay "plan" "one" 5 []).1 in
    let (first, s2) = consume_rerun no_overrides "t" replay "plan" "one" s1 in
    (first ≡ true) × ((consume_rerun no_overrides "t" replay "plan" "one" s2).0 ≡ false)
unfolding lease_ms
consume_rerun_once_example =
    consume_rerun_once no_overrides "t" replay "plan" "one" 1 5 "one" 3600005 meanwhile []
      (ground arith, tt) first_grant
      (
        (omega arith, omega arith, tt),
        (
          (omega arith, omega arith, tt),
          (
            (omega arith, omega arith, inl refl),
            ((omega arith, omega arith, (ground arith, tt)), ((omega arith, omega arith, tt), tt)),
          ),
        ),
      )
      (tt, (tt, (tt, (tt, (tt, tt))))) (inl refl)
