-- ===== src/Breaker/Tests.antt =====
-- Runs of the circuit breaker (apps/agentcore/src/llm/breaker.ts, apps/agentcore/src/llm/providers.ts).
use complete.Base.{
  Option, List, ℕ, ◌+◌, ◌≤◌, true, false, [], ◌∷◌, none, some, ◌≡◌, ◌↔◌, refl, arith, All,
}
use complete.Breaker.{closed, open_, half_open, default_options, CircuitBreaker, new, can_attempt}
use complete.Breaker.Laws.{attempt, outcome, run, IsSound, one_probe, few_failures-closed}
use complete.Breaker.Fallback.{
  ErrorInfo, is_fallback_triggering, Called, returned, raised, breaker_open, to_fallback,
  with_fallback,
}
use complete.Breaker.Fallback.Laws.{Try, unrecorded_probe-stuck}

abbrev open_since_ten : CircuitBreaker
open_since_ten = record { events = []; state = open_; opened_at = 10; probing = false }

is_sound : IsSound default_options open_since_ten
is_sound = record { probing_half = λ e. absurd (cc); half_probing = λ e. absurd (cc) }

few_failures-closed_example :
    (run default_options
      (outcome false 1 ∷ attempt 2 ∷ outcome false 3 ∷ outcome true 4 ∷ [])
      new).state
    ≡ closed
few_failures-closed_example =
    few_failures-closed (outcome false 1 ∷ attempt 2 ∷ outcome false 3 ∷ outcome true 4 ∷ [])
      (omega arith)

one_probe_example :
    (((can_attempt default_options 40000 open_since_ten).0 ≡ true)
      ↔ (open_since_ten.opened_at + default_options.half_open_after_ms ≤ 40000))
    × ((can_attempt default_options 40000 open_since_ten).0 ≡ true
        → let after = (can_attempt default_options 40000 open_since_ten).1 in
          All
            (λ later. can_attempt default_options later after ≡ (false, after))
            (40001 ∷ 90000 ∷ []))
one_probe_example =
    one_probe default_options open_since_ten 40000 (40001 ∷ 90000 ∷ []) is_sound refl

abbrev no_text : Option ErrorInfo → List ℕ
no_text error = []

abbrev bad_request : ErrorInfo
bad_request = record {
  is_error = true;
  name = none;
  status = some 400;
  status_code = none;
  code = none;
  message = none;
}

not_triggering : is_fallback_triggering (some bad_request) ≡ false
unfolding is_fallback_triggering
not_triggering = refl

abbrev probe_error : Called ℕ
probe_error = raised (some bad_request)

abbrev later_call : Try ℕ
later_call = record { asked = 900000; ended = 900001; primary = returned 7; fallback = none }

unrecorded_probe-stuck_example :
    let (result, b') =
      with_fallback no_text default_options 40000 40001 probe_error none open_since_ten in
    (result ≡ probe_error)
    × (b'.state ≡ half_open)
    × All
        (λ (c : Try ℕ).
          with_fallback no_text default_options c.asked c.ended c.primary c.fallback b'
          ≡ (to_fallback no_text c.fallback breaker_open, b'))
        (later_call ∷ [])
unrecorded_probe-stuck_example =
    unrecorded_probe-stuck no_text default_options 40000 40001 (some bad_request) none
      open_since_ten (later_call ∷ []) is_sound refl (omega arith) not_triggering
