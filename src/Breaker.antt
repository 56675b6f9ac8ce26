-- ===== src/Breaker.antt =====
-- The circuit breaker of the language-model providers (apps/agentcore/src/llm/breaker.ts,
-- `CircuitBreaker`). The clock `now()` is an argument of each call, in milliseconds. The failure
-- rate and its threshold are compared as fractions, the threshold being `num / den`: for the few
-- samples of a window the quotient of the source decides the same, its default being 1/2.
-- A cutoff before the epoch is written by adding the window on the other side.
mod Tests
pub mod Laws
pub mod Fallback
use complete.Base.{
  ℕ, ◌+◌, ◌*◌, Bool, true, false, not, ◌&&◌, List, [], ◌∷◌, ◌++◌, if◌then◌else◌, ltb, leb, length,
  filter,
}

pub data BreakerState : Type 0 where
  closed open_ half_open : BreakerState

pub record BreakerOptions : Type 0 where
  pub window_ms : ℕ
  pub threshold_num : ℕ
  pub threshold_den : ℕ
  pub min_samples : ℕ
  pub half_open_after_ms : ℕ

-- The defaults of the constructor.
abbrev pub default_options : BreakerOptions
default_options = record {
  window_ms = 60000;
  threshold_num = 1;
  threshold_den = 2;
  min_samples = 5;
  half_open_after_ms = 30000;
}

pub record Sample : Type 0 where
  pub at : ℕ
  pub is_ok : Bool

pub record CircuitBreaker : Type 0 where
  pub events : List Sample
  pub state : BreakerState
  pub opened_at : ℕ
  pub probing : Bool

unfoldable pub new : CircuitBreaker
new = record { events = []; state = closed; opened_at = 0; probing = false }

module _ (opts : BreakerOptions) where
  -- Whether a request may go to the provider; true also for the one probe.
  attempt_in : BreakerState → ℕ → CircuitBreaker → Bool × CircuitBreaker
  attempt_in open_ now b =
      if not b.probing && leb (b.opened_at + opts.half_open_after_ms) now
      then (true, record b { state = half_open; probing = true })
      else (false, b)
  attempt_in half_open now b = (false, b)
  attempt_in closed now b = (true, b)

  unfoldable pub can_attempt : ℕ → CircuitBreaker → Bool × CircuitBreaker
  unfolding attempt_in
  can_attempt now b = attempt_in b.state now b

  -- The samples of the window that ends now, the new one included.
  unfoldable pub window : ℕ → Bool → List Sample → List Sample
  window now is_ok events =
      filter (λ e. leb now (e.at + opts.window_ms))
        (events ++ record { at = now; is_ok = is_ok } ∷ [])

  unfoldable pub failures : List Sample → ℕ
  failures events = length (filter (λ e. not e.is_ok) events)

  unfoldable pub trips : List Sample → Bool
  trips events =
      leb opts.min_samples (length events)
      && ltb (opts.threshold_num * length events) (failures events * opts.threshold_den)

  record_in : BreakerState → Bool → ℕ → CircuitBreaker → CircuitBreaker
  record_in half_open true now b = record b { probing = false; state = closed; events = [] }
  record_in half_open false now b = record b { probing = false; state = open_; opened_at = now }
  record_in _ is_ok now b =
      let b' = record b { events = window now is_ok b.events } in
      if trips b'.events then record b' { state = open_; opened_at = now } else b'

  -- `record`: the outcome of an attempt, which the source answers with the new state.
  unfoldable pub record_outcome : Bool → ℕ → CircuitBreaker → CircuitBreaker
  unfolding record_in
  record_outcome is_ok now b = record_in b.state is_ok now b
