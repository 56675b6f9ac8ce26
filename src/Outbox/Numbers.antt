-- ===== src/Outbox/Numbers.antt =====
-- The numbers of events within an aggregate (apps/datacore/src/outbox.ts, `emit`).
use complete.Base.{
  ℕ, ◌+◌, ◌≤◌, ◌<◌, String, true, List, [], ◌∷◌, Option, some, ◌≡◌, refl, arith, All, str_eq, max,
}
use complete.Store.{mem_key, get, list}
use complete.Store.Laws.{find_key-put_self, All-of_list}
use complete.Outbox.{
  EventStatus, OutboxEvent, event_entity, webhook_entity, next_seq, key_or, in_aggregate, new_event,
  emit,
}

module _ {P : Type 0} where
  next_seq-le : (m : ℕ) (es : List (OutboxEvent P)) → m ≤ next_seq m es
  unfolding next_seq
  next_seq-le m [] = omega arith
  next_seq-le m (e ∷ es) = omega (arith, next_seq-le (max m (e.seq + 1)) es)

  next_seq-bound : (m : ℕ) (es : List (OutboxEvent P)) → All (λ e. e.seq < next_seq m es) es
  unfolding next_seq
  next_seq-bound m [] = tt
  next_seq-bound m (e ∷ es) =
      let m' = max m (e.seq + 1) in (omega (arith, next_seq-le m' es), next_seq-bound m' es)

  -- A new event is stored pending and due at once, behind every event of its aggregate.
  pub emit_behind :
      (tenant event : String) (payload : P) (aggregate : Option String) (id : String) (now : ℕ)
      (s : List (OutboxEvent P))
      → let (evt, s') = emit tenant event payload aggregate id now s in
        (get tenant id s' ≡ some evt)
        × (evt.status ≡ EventStatus.pending)
        × (evt.attempts ≡ 0)
        × (evt.next_attempt_at ≡ now)
        × (evt.aggregate_key ≡ key_or aggregate id)
        × All
            (λ e.
              e.tenant_id ≡ tenant
              → str_eq e.aggregate_key evt.aggregate_key ≡ true
              → e.seq < evt.seq)
            s
  unfolding emit
  emit_behind tenant event payload aggregate id now s =
      let key = key_or aggregate id in
      let siblings = list tenant (in_aggregate key) s in
      let evt = new_event tenant event payload key id now (next_seq 0 siblings) in
      (
        find_key-put_self (mem_key tenant id) evt s refl,
        refl,
        refl,
        refl,
        refl,
        All-of_list _ tenant (in_aggregate key) s (next_seq-bound 0 siblings),
      )
