-- ===== src/Outbox/Retry.antt =====
-- One delivery of the outbox, and the life of an event whose deliveries fail
-- (apps/datacore/src/outbox.ts, `deliver`, `redeliver`).
use complete.Base.{
  ℕ, zero, suc, ◌+◌, ◌≤◌, ◌<◌, String, Bool, true, false, List, [], ◌∷◌, Option, none, some, ◌≡◌,
  ◌↔◌, ◌⊎◌, inl, inr, refl, arith, if◌then◌else◌, filter, All, ltb, ◌∙◌, Bool-cases,
}
use native.Mathlib.Decide.{dec_lt}
use complete.Store.{key_of, find_key, put}
use complete.Store.Laws.{find_key-put_self, find_key-key}
use complete.Outbox.{
  EventStatus, DeliveryError, http, thrown, OutboxEvent, event_entity, Webhook, FetchResult,
  responded, raised, Delivery, is_pending, backoff_ms, backoff_at, wants, call_targets, retry,
  deliver,
}

FetchResult-cases :
    (r : FetchResult)
    → ((code : ℕ) × (r ≡ responded true code))
      ⊎ (((code : ℕ) × (r ≡ responded false code)) ⊎ ((m : String) × (r ≡ raised m)))
FetchResult-cases (responded true code) = inl (code, refl)
FetchResult-cases (responded false code) = inr (inl (code, refl))
FetchResult-cases (raised m) = inr (inr (m, refl))

module _ {P : Type 0} (fetch : Webhook → OutboxEvent P → FetchResult) where
  -- A target answers with a code 2xx.
  abbrev pub Accepts : OutboxEvent P → Webhook → Type 0
  Accepts evt hook = (code : ℕ) × (fetch hook evt ≡ responded true code)

  call_targets-ok :
      (evt : OutboxEvent P) (hooks : List Webhook) (b : Bool) (error : Option DeliveryError)
      → ((call_targets fetch evt hooks (b, error)).0 ≡ true)
        ↔ ((b ≡ true) × All (Accepts evt) hooks)
  unfolding call_targets
  call_targets-ok evt [] b error = ground arith
  call_targets-ok evt (hook ∷ hooks) b error =
      let here = FetchResult-cases (fetch hook evt) in
      elim here [
        | inl (code, e) ↦ ground (arith, e, call_targets-ok evt hooks b error)
        | inr (inl (code, e)) ↦
            ground (arith, e, call_targets-ok evt hooks false (some (http code hook.url)))
        | inr (inr (m, e)) ↦ ground (arith, e, call_targets-ok evt hooks false (some (thrown m)))
      ]

  -- An event is delivered exactly when every webhook that wants it accepts it: each is called, and
  -- one refusal, or one exception, is enough for a retry. With no webhook it counts as delivered.
  pub deliver-delivered_iff :
      (evt : OutboxEvent P) (hooks : List Webhook) (at : ℕ) (s : List (OutboxEvent P))
      → ((deliver fetch evt hooks at s).0 ≡ Delivery.delivered)
        ↔ All (Accepts evt) (filter (wants evt) hooks)
  unfolding deliver retry
  deliver-delivered_iff evt hooks at s =
      let ts = filter (wants evt) hooks in ground (arith, call_targets-ok evt ts true none)

  -- What is stored when a delivery is not accepted.
  abbrev pub failed_event : OutboxEvent P → Option DeliveryError → ℕ → OutboxEvent P
  failed_event evt error at = record evt {
    attempts = evt.attempts + 1;
    status = EventStatus.pending;
    last_error = error;
    next_attempt_at = at + backoff_at 0 backoff_ms evt.attempts;
  }

  abbrev after_failure : OutboxEvent P → Option DeliveryError → ℕ → OutboxEvent P
  after_failure evt error at =
      if ltb 5 (evt.attempts + 1)
      then record evt { attempts = evt.attempts + 1; status = EventStatus.dead; last_error = error }
      else failed_event evt error at

  deliver-rejected :
      (evt : OutboxEvent P) (hooks : List Webhook) (at : ℕ) (s : List (OutboxEvent P))
      → ¬ All (Accepts evt) (filter (wants evt) hooks)
      → let error = (call_targets fetch evt (filter (wants evt) hooks) (true, none)).1 in
        (deliver fetch evt hooks at s).1 ≡ put (after_failure evt error at) s
  unfolding deliver retry
  deliver-rejected evt hooks at s rejects =
      let ts = filter (wants evt) hooks in
      let ok = call_targets-ok evt ts true none in
      elim (Bool-cases (call_targets fetch evt ts (true, none)).0) [
        | inl e ↦ absurd (rejects ((ok.0 e).1))
        | inr e ↦ ground (arith, e)
      ]

  -- One failing attempt: the event stays pending while fewer than six attempts are counted, each
  -- time due after its own delay, and is dead at the sixth.
  pub deliver_failing :
      (k : String) (evt : OutboxEvent P) (hooks : List Webhook) (at : ℕ) (s : List (OutboxEvent P))
      → key_of evt ≡ k
      → ¬ All (Accepts evt) (filter (wants evt) hooks)
      → (x : OutboxEvent P) × (find_key k (deliver fetch evt hooks at s).1 ≡ some x)
        × (x.attempts ≡ evt.attempts + 1)
        × (x.event ≡ evt.event)
        × (evt.attempts < 5
            → (x.status ≡ EventStatus.pending)
              × (x.next_attempt_at ≡ at + backoff_at 0 backoff_ms evt.attempts))
        × (5 ≤ evt.attempts → x.status ≡ EventStatus.dead)
  deliver_failing k evt hooks at s same rejects =
      let error = (call_targets fetch evt (filter (wants evt) hooks) (true, none)).1 in
      let x = after_failure evt error at in
      let key : key_of x ≡ k = ground (arith, same) in
      (
        x,
        rw (deliver-rejected evt hooks at s rejects) (find_key-put_self k x s key),
        ground arith,
        ground arith,
        λ lt. ground arith,
        λ le. ground arith,
      )

  -- `n` attempts at the event with key `k`, one after another while it is pending.
  pub attempt_times :
      ℕ → String → List Webhook → (OutboxEvent P → ℕ) → List (OutboxEvent P) → List (OutboxEvent P)
  attempt_times zero k hooks at s = s
  attempt_times (suc n) k hooks at s = elim (find_key k s) [
    | none ↦ s
    | some evt ↦
        let more = attempt_times n k hooks at (deliver fetch evt hooks (at evt) s).1 in
        if is_pending evt.status then more else s
  ]

  -- An event that no attempt gets through stays pending for five attempts and is dead after the
  -- sixth, from any number of attempts counted so far.
  pub attempt_times-dead :
      (n : ℕ) (k name : String) (evt : OutboxEvent P) (hooks : List Webhook)
      (at : OutboxEvent P → ℕ) (s : List (OutboxEvent P))
      → find_key k s ≡ some evt
      → (evt.status ≡ EventStatus.pending) × (evt.event ≡ name) × (evt.attempts ≤ 5)
      → n + evt.attempts ≤ 6
      → ((e : OutboxEvent P) → e.event ≡ name → ¬ All (Accepts e) (filter (wants e) hooks))
      → (x : OutboxEvent P) × (find_key k (attempt_times n k hooks at s) ≡ some x)
        × (x.attempts ≡ n + evt.attempts)
        × (n + evt.attempts ≤ 5 → x.status ≡ EventStatus.pending)
        × (n + evt.attempts ≡ 6 → x.status ≡ EventStatus.dead)
  unfolding attempt_times
  attempt_times-dead zero k name evt hooks at s found (open_, named, few) le rejects =
      (evt, found, omega arith, λ _. open_, λ six. absurd (omega arith))
  attempt_times-dead (suc n) k name evt hooks at s found (open_, named, few) le rejects =
      let same = find_key-key k s evt found in
      let s' = (deliver fetch evt hooks (at evt) s).1 in
      let (x, there, one_more, kept, goes_on, dies) =
        deliver_failing k evt hooks (at evt) s same (rejects evt named) in
      let step : attempt_times (suc n) k hooks at s ≡ attempt_times n k hooks at s' =
        ground (arith, found, open_) in
      rw step (elim (dec_lt evt.attempts 5) [
        | yes few' ↦
            let (y, at_end, count, pending', dead') =
              attempt_times-dead n k name x hooks at s' there
                ((goes_on few').0, kept ∙ named, omega arith) (omega arith) rejects in
            (y, at_end, omega arith, λ le'. pending' (omega arith), λ six. dead' (omega arith))
        | no many ↦
            let last : n ≡ 0 = omega arith in
            (x, rw last there, omega arith, λ le'. absurd (omega arith), λ six. dies (omega arith))
      ])
