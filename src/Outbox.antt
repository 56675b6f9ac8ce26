-- ===== src/Outbox.antt =====
-- The event outbox (apps/datacore/src/outbox.ts): events written by `emit`, delivered to webhooks by
-- `processOnce`, retried with a growing delay and then dead. The store is explicit state, times are
-- milliseconds since the epoch, each reading of the clock and each new id is an argument, and the
-- HTTP call `fetchImpl` is a parameter. An error text is kept as the data that it is made from.
mod Tests
pub mod Retry
pub mod Numbers
pub mod Order
use complete.Base.{
  ℕ, zero, suc, ◌+◌, ◌*◌, String, Bool, true, false, List, [], ◌∷◌, Option, none, some,
  if◌then◌else◌, ltb, str_eq, max, length, filter, any,
}
use complete.Store.{Entity, get, put, list}

pub data EventStatus : Type 0 where
  pending delivered failed dead : EventStatus

pub data DeliveryError : Type 0 where
  http : (status : ℕ) (url : String) → DeliveryError
  thrown : (message : String) → DeliveryError

pub record OutboxEvent (P : Type 0) : Type 0 where
  pub id : String
  pub tenant_id : String
  pub event_id : String
  pub event : String
  pub aggregate_key : String
  pub seq : ℕ
  pub payload : P
  pub status : EventStatus
  pub attempts : ℕ
  pub next_attempt_at : ℕ
  pub last_error : Option DeliveryError
  pub created_at : ℕ

instance abbrev pub event_entity : {P : Type 0} → Entity (OutboxEvent P)
event_entity = record { tenant_id = λ e. e.tenant_id; id = λ e. e.id }

-- A registered webhook; `active` is `status === "ACTIVE"`.
pub record Webhook : Type 0 where
  pub id : String
  pub tenant_id : String
  pub url : String
  pub active : Bool
  pub events : List String

instance abbrev pub webhook_entity : Entity Webhook
webhook_entity = record { tenant_id = λ w. w.tenant_id; id = λ w. w.id }

-- What a POST comes to: an answer, whose `ok` says that its code is 2xx, or an exception.
pub data FetchResult : Type 0 where
  responded : (is_ok : Bool) (status : ℕ) → FetchResult
  raised : (message : String) → FetchResult

pub data Delivery : Type 0 where
  delivered : Delivery
  failed : Delivery
  dead : Delivery

abbrev pub is_pending : EventStatus → Bool
is_pending pending = true
is_pending _ = false

abbrev pub is_dead : EventStatus → Bool
is_dead dead = true
is_dead _ = false

-- `BACKOFF_MS`, by the number of the failed attempt: 1 minute, 5, 30, 2 hours, 12 hours.
abbrev pub backoff_ms : List ℕ
backoff_ms = 60000 ∷ (5 * 60000) ∷ (30 * 60000) ∷ (120 * 60000) ∷ (720 * 60000) ∷ []

-- `BACKOFF_MS[i] ?? BACKOFF_MS[BACKOFF_MS.length - 1]`
unfoldable pub backoff_at : ℕ → List ℕ → ℕ → ℕ
backoff_at last [] i = last
backoff_at last (ms ∷ rest) zero = ms
backoff_at last (ms ∷ rest) (suc i) = backoff_at ms rest i

abbrev key_or : Option String → String → String
key_or none id = id
key_or (some k) id = k

-- What one target's answer does to (`allOk`, `lastError`).
note_result : Webhook → FetchResult → Bool × Option DeliveryError → Bool × Option DeliveryError
note_result hook (responded true code) acc = acc
note_result hook (responded false code) acc = (false, some (http code hook.url))
note_result hook (raised message) acc = (false, some (thrown message))

pub record Counts : Type 0 where
  pub delivered : ℕ
  pub failed : ℕ
  pub dead : ℕ

count_delivery : Delivery → Counts → Counts
count_delivery Delivery.delivered c = record c { delivered = c.delivered + 1 }
count_delivery Delivery.failed c = record c { failed = c.failed + 1 }
count_delivery Delivery.dead c = record c { dead = c.dead + 1 }

module _ {P : Type 0} where
  -- `siblings.reduce((m, e) => Math.max(m, e.seq + 1), 0)`
  unfoldable pub next_seq : ℕ → List (OutboxEvent P) → ℕ
  next_seq m [] = m
  next_seq m (e ∷ es) = next_seq (max m (e.seq + 1)) es

  abbrev in_aggregate : String → OutboxEvent P → Bool
  in_aggregate key e = str_eq e.aggregate_key key

  abbrev pub new_event : String → String → P → String → String → ℕ → ℕ → OutboxEvent P
  new_event tenant event payload key id now seq = record {
    id = id;
    tenant_id = tenant;
    event_id = id;
    event = event;
    aggregate_key = key;
    seq = seq;
    payload = payload;
    status = EventStatus.pending;
    attempts = 0;
    next_attempt_at = now;
    last_error = none;
    created_at = now;
  }

  unfoldable pub emit :
      String
      → String
      → P
      → Option String
      → String
      → ℕ
      → List (OutboxEvent P)
      → OutboxEvent P × List (OutboxEvent P)
  emit tenant event payload aggregate id now s =
      let key = key_or aggregate id in
      let evt =
        new_event tenant event payload key id now (next_seq 0 (list tenant (in_aggregate key) s)) in
      (evt, put evt s)

  -- `h.events.length === 0 || h.events.includes(evt.event)`
  abbrev wants : OutboxEvent P → Webhook → Bool
  wants evt hook = elim hook.events [ [] ↦ true | _ ↦ any (λ e. str_eq e evt.event) hook.events ]

  -- `events.sort((a, b) => a.seq - b.seq)[0]`: the sort is stable, so the first of the lowest.
  unfoldable pub lowest : OutboxEvent P → List (OutboxEvent P) → OutboxEvent P
  lowest e [] = e
  lowest e (x ∷ xs) = lowest (if ltb x.seq e.seq then x else e) xs

  -- One head for each aggregate, in the order in which the aggregates first show (the Map's
  -- order): an event opens its aggregate unless an earlier one did.
  unfoldable pub heads : List String → List (OutboxEvent P) → List (OutboxEvent P)
  unfolding lowest
  heads seen [] = []
  heads seen (e ∷ es) =
      let fresh =
        lowest e (filter (in_aggregate e.aggregate_key) es) ∷ heads (e.aggregate_key ∷ seen) es in
      let old = heads seen es in if any (λ k. str_eq k e.aggregate_key) seen then old else fresh

  -- After a failed attempt at the time `at`.
  unfoldable pub retry :
      OutboxEvent P
      → Option DeliveryError
      → ℕ
      → List (OutboxEvent P)
      → Delivery × List (OutboxEvent P)
  retry evt error at s =
      let attempts = evt.attempts + 1 in
      if ltb (length backoff_ms) attempts
      then (
        Delivery.dead,
        put (record evt { attempts = attempts; status = EventStatus.dead; last_error = error }) s,
      )
      else (
        Delivery.failed,
        put
            (record evt {
              attempts = attempts;
              status = EventStatus.pending;
              last_error = error;
              next_attempt_at = at + backoff_at 0 backoff_ms evt.attempts;
            })
            s,
      )

  module _ (fetch : Webhook → OutboxEvent P → FetchResult) where
    -- The loop over the targets: each is called, whatever the others answered.
    unfoldable pub call_targets :
        OutboxEvent P → List Webhook → Bool × Option DeliveryError → Bool × Option DeliveryError
    unfolding note_result
    call_targets evt [] acc = acc
    call_targets evt (hook ∷ hooks) acc =
        call_targets evt hooks (note_result hook (fetch hook evt) acc)

    unfoldable pub deliver :
        OutboxEvent P → List Webhook → ℕ → List (OutboxEvent P) → Delivery × List (OutboxEvent P)
    deliver evt hooks at s =
        let targets = filter (wants evt) hooks in
        let (all_ok, error) = call_targets evt targets (true, none) in
        elim targets [
          | [] ↦ (Delivery.delivered, put (record evt { status = EventStatus.delivered }) s)
          | _ ↦
              if all_ok
              then (
                Delivery.delivered,
                put (record evt { status = EventStatus.delivered; attempts = evt.attempts + 1 }) s,
              )
              else retry evt error at s
        ]

    -- The loop of `processOnce`. A head that is not due makes its whole aggregate wait. `done_at`
    -- is the clock when the delivery of an event has been tried.
    unfoldable pub process_heads :
        List Webhook
        → ℕ
        → (OutboxEvent P → ℕ)
        → List (OutboxEvent P)
        → Counts
        → List (OutboxEvent P)
        → Counts × List (OutboxEvent P)
    unfolding count_delivery
    process_heads hooks now done_at [] c s = (c, s)
    process_heads hooks now done_at (head ∷ rest) c s =
        let waits = process_heads hooks now done_at rest c s in
        let goes =
          let (outcome, s') = deliver head hooks (done_at head) s in
          process_heads hooks now done_at rest (count_delivery outcome c) s' in
        if ltb now head.next_attempt_at then waits else goes

    unfoldable pub process_once :
        String
        → List Webhook
        → ℕ
        → (OutboxEvent P → ℕ)
        → List (OutboxEvent P)
        → Counts × List (OutboxEvent P)
    process_once tenant webhooks now done_at s =
        let due = list tenant (λ e. is_pending e.status) s in
        let hooks = list tenant (λ w. w.active) webhooks in
        process_heads hooks now done_at (heads [] due)
          (record { delivered = 0; failed = 0; dead = 0 }) s

  unfoldable pub list_dead : String → List (OutboxEvent P) → List (OutboxEvent P)
  list_dead tenant s = list tenant (λ e. is_dead e.status) s

  unfoldable pub redeliver :
      String → String → ℕ → List (OutboxEvent P) → Bool × List (OutboxEvent P)
  redeliver tenant id now s = elim (get tenant id s) [
    | none ↦ (false, s)
    | some evt ↦
        if is_dead evt.status
        then (
          true,
          put
              (record evt {
                status = EventStatus.pending;
                attempts = 0;
                last_error = none;
                next_attempt_at = now;
              })
              s,
        )
        else (false, s)
  ]
