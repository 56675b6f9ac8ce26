-- ===== src/Outbox/Tests.antt =====
-- Runs of the outbox (apps/datacore/src/outbox.ts).
use complete.Base.{
  ℕ, ◌+◌, ◌≤◌, String, true, false, List, [], ◌∷◌, none, some, ◌≡◌, ◌↔◌, refl, arith, All, filter,
}
use complete.Store.{find_key, mem_key}
use complete.Outbox.{
  EventStatus, OutboxEvent, event_entity, Webhook, FetchResult, responded, Delivery, wants, deliver,
  process_once,
}
use complete.Outbox.Retry.{Accepts, deliver-delivered_iff, attempt_times, attempt_times-dead}
use complete.Outbox.Order.{process_once-blocked}

abbrev event_of : String → ℕ → OutboxEvent ℕ
event_of id seq = record {
  id = id;
  tenant_id = "t";
  event_id = id;
  event = "order.changed";
  aggregate_key = "order-1";
  seq = seq;
  payload = 0;
  status = EventStatus.pending;
  attempts = 0;
  next_attempt_at = 0;
  last_error = none;
  created_at = 0;
}

abbrev hook : Webhook
hook = record { id = "h"; tenant_id = "t"; url = "http://x"; active = true; events = [] }

abbrev refuses : Webhook → OutboxEvent ℕ → FetchResult
refuses w e = responded false 500

abbrev stored : List (OutboxEvent ℕ)
stored = event_of "a" 1 ∷ event_of "b" 2 ∷ []

found_a : find_key (mem_key "t" "a") stored ≡ some (event_of "a" 1)
unfolding find_key mem_key
found_a = refl

found_b : find_key (mem_key "t" "b") stored ≡ some (event_of "b" 2)
unfolding find_key mem_key
found_b = refl

process_once-blocked_example :
    find_key (mem_key "t" "b") (process_once refuses "t" (hook ∷ []) 10 (λ e. 11) stored).1
    ≡ some (event_of "b" 2)
process_once-blocked_example =
    process_once-blocked refuses "t" (hook ∷ []) 10 (λ e. 11) (mem_key "t" "b") (mem_key "t" "a")
      (event_of "b" 2) (event_of "a" 1) stored (found_a, (found_b, tt)) found_b found_a (refl, refl)
      refl (omega arith)

deliver-delivered_iff_example :
    ((deliver refuses (event_of "a" 1) (hook ∷ []) 10 stored).0 ≡ Delivery.delivered)
    ↔ All (Accepts refuses (event_of "a" 1)) (filter (wants (event_of "a" 1)) (hook ∷ []))
deliver-delivered_iff_example = deliver-delivered_iff refuses (event_of "a" 1) (hook ∷ []) 10 stored

All-refused :
    (e : OutboxEvent ℕ)
    → e.event ≡ "order.changed"
    → ¬ All (Accepts refuses e) (filter (wants e) (hook ∷ []))
All-refused e named h = let (code, same) = h.0 in cc

attempt_times-dead_example :
    (x : OutboxEvent ℕ) × (find_key
        (mem_key "t" "a")
        (attempt_times refuses 6 (mem_key "t" "a") (hook ∷ []) (λ e. 10) stored)
      ≡ some x)
    × (x.attempts ≡ 6 + 0)
    × (6 + 0 ≤ 5 → x.status ≡ EventStatus.pending)
    × (6 + 0 ≡ 6 → x.status ≡ EventStatus.dead)
attempt_times-dead_example =
    attempt_times-dead refuses 6 (mem_key "t" "a") "order.changed" (event_of "a" 1) (hook ∷ [])
      (λ e. 10) stored found_a (refl, refl, omega arith) (omega arith) All-refused
