-- ===== src/Breaker/Laws.antt =====
-- What the circuit breaker guarantees over any sequence of calls
-- (apps/agentcore/src/llm/breaker.ts, `canAttempt` and `record`).
use complete.Base.{
  ℕ, suc, ◌+◌, ◌≤◌, ◌<◌, Bool, true, false, not, List, [], ◌∷◌, ◌++◌, ◌≡◌, ◌↔◌, inl, inr, refl,
  arith, leb, length, filter, All, Bool-cases,
}
use complete.Breaker.{
  closed, open_, half_open, BreakerOptions, Sample, CircuitBreaker, new, can_attempt, window,
  failures, trips, record_outcome, default_options,
}

-- A call of the breaker: a question at a time, or an outcome reported at a time.
pub data Call : Type 0 where
  attempt : (now : ℕ) → Call
  outcome : (is_ok : Bool) (now : ℕ) → Call

-- How many of the calls report a failure.
abbrev pub reported_failures : List Call → ℕ
reported_failures [] = 0
reported_failures (attempt now ∷ cs) = reported_failures cs
reported_failures (outcome true now ∷ cs) = reported_failures cs
reported_failures (outcome false now ∷ cs) = suc (reported_failures cs)

abbrev failed_samples : List Sample → ℕ
failed_samples events = length (filter (λ e. not e.is_ok) events)

failed_samples-append :
    (xs ys : List Sample) → failed_samples (xs ++ ys) ≡ failed_samples xs + failed_samples ys
failed_samples-append [] ys = omega arith
failed_samples-append (x ∷ xs) ys = ground (arith, failed_samples-append xs ys)

failed_samples-filter :
    (p : Sample → Bool) (xs : List Sample) → failed_samples (filter p xs) ≤ failed_samples xs
failed_samples-filter p [] = omega arith
failed_samples-filter p (x ∷ xs) = ground (arith, failed_samples-filter p xs)

module _ (opts : BreakerOptions) where
  unfoldable pub apply : Call → CircuitBreaker → CircuitBreaker
  apply (attempt now) b = (can_attempt opts now b).1
  apply (outcome is_ok now) b = record_outcome opts is_ok now b

  unfoldable pub run : List Call → CircuitBreaker → CircuitBreaker
  run [] b = b
  run (c ∷ cs) b = run cs (apply c b)

  -- A probe is in flight exactly in the half-open state.
  pub record IsSound (b : CircuitBreaker) : Type 0 where
    pub probing_half : b.probing ≡ true → b.state ≡ half_open
    pub half_probing : b.state ≡ half_open → b.probing ≡ true

  apply-IsSound : (c : Call) (b : CircuitBreaker) → IsSound b → IsSound (apply c b)
  unfolding apply can_attempt record_outcome
  apply-IsSound (attempt now) b h = ground arith
  apply-IsSound (outcome is_ok now) b h = ground arith

  -- Whatever is called, and in whatever order: a probe is in flight exactly while the breaker is
  -- half open.
  pub run-IsSound : (cs : List Call) (b : CircuitBreaker) → IsSound b → IsSound (run cs b)
  unfolding run
  run-IsSound [] b h = h
  run-IsSound (c ∷ cs) b h = run-IsSound cs (apply c b) (apply-IsSound c b h)

  attempts_refused :
      (b : CircuitBreaker) (times : List ℕ)
      → b.state ≡ half_open
      → All (λ now. can_attempt opts now b ≡ (false, b)) times
  unfolding can_attempt
  attempts_refused b [] s = tt
  attempts_refused b (now ∷ times) s = (ground arith, attempts_refused b times s)

  -- While the breaker is open, a question is answered yes exactly when the waiting time is over. That
  -- is the one probe: until an outcome is reported, every later question is answered no and changes
  -- nothing, at whatever times they are asked.
  pub one_probe :
      (b : CircuitBreaker) (now : ℕ) (times : List ℕ)
      → IsSound b
      → b.state ≡ open_
      → (((can_attempt opts now b).0 ≡ true) ↔ (b.opened_at + opts.half_open_after_ms ≤ now))
        × ((can_attempt opts now b).0 ≡ true
            → let after = (can_attempt opts now b).1 in
              All (λ later. can_attempt opts later after ≡ (false, after)) times)
  one_probe b now times h s = (
    unfold can_attempt in ground arith,
    λ granted.
        attempts_refused (can_attempt opts now b).1 times (unfold can_attempt in ground arith),
  )

window_failures :
    (is_ok : Bool) (now : ℕ) (events : List Sample)
    → failed_samples (window default_options now is_ok events)
      ≤ failed_samples events + reported_failures (outcome is_ok now ∷ [])
unfolding window
window_failures is_ok now events =
    let new_sample : Sample = record { at = now; is_ok = is_ok } in
    let all_in = failed_samples-append events (new_sample ∷ []) in
    let some_out =
      failed_samples-filter (λ e. leb now (e.at + 60000)) (events ++ new_sample ∷ []) in
    ground (arith, all_in, some_out)

trips_failures :
    (events : List Sample) → trips default_options events ≡ true → 3 ≤ failed_samples events
unfolding trips failures
trips_failures events h = ground arith

-- One outcome keeps a closed breaker closed while the failures it knows of, with those to come, are
-- fewer than three.
closed_step :
    (is_ok : Bool) (now : ℕ) (b : CircuitBreaker)
    → b.state ≡ closed
    → failed_samples b.events + reported_failures (outcome is_ok now ∷ []) < 3
    → let b' = record_outcome default_options is_ok now b in
      (b'.state ≡ closed)
      × (failed_samples b'.events
          ≤ failed_samples b.events + reported_failures (outcome is_ok now ∷ []))
unfolding record_outcome
closed_step is_ok now b s few =
    let bound = window_failures is_ok now b.events in
    let events = window default_options now is_ok b.events in
    elim (Bool-cases (trips default_options events)) [
      | inl t ↦ absurd (omega (arith, trips_failures events t))
      | inr f ↦ ground (arith, f)
    ]

run-closed :
    (cs : List Call) (b : CircuitBreaker)
    → b.state ≡ closed
    → failed_samples b.events + reported_failures cs < 3
    → (run default_options cs b).state ≡ closed
unfolding run apply can_attempt
run-closed [] b s few = s
run-closed (attempt now ∷ cs) b s few =
    run-closed cs (can_attempt default_options now b).1 (ground arith) (ground arith)
run-closed (outcome is_ok now ∷ cs) b s few =
    let step = closed_step is_ok now b s (ground arith) in
    run-closed cs (record_outcome default_options is_ok now b) step.0 (ground (arith, step.1))

-- With the default options, a breaker of whose outcomes fewer than three are failures never opens.
pub few_failures-closed :
    (cs : List Call) → reported_failures cs < 3 → (run default_options cs new).state ≡ closed
unfolding new
few_failures-closed cs few = run-closed cs new refl (omega arith)
