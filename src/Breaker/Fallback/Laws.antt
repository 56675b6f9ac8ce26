-- ===== src/Breaker/Fallback/Laws.antt =====
-- When a call goes to the fallback provider, and a probe whose outcome is never recorded
-- (apps/agentcore/src/llm/providers.ts, `withFallback`).
use complete.Base.{
  ℕ, ◌+◌, ◌≤◌, true, false, List, [], ◌∷◌, Option, none, some, ◌≡◌, ◌⊎◌, arith, All,
}
use complete.Breaker.{open_, half_open, BreakerOptions, CircuitBreaker, can_attempt, record_outcome}
use complete.Breaker.Laws.{IsSound}
use complete.Breaker.Fallback.{
  ErrorInfo, is_fallback_triggering, Called, returned, raised, breaker_open, to_fallback,
  with_fallback,
}

-- A status decides alone, unless the error is named as a refusal of the content: 429 and 5xx go to
-- the fallback, any other code does not.
pub status-triggers :
    (e : ErrorInfo) (status : ℕ)
    → e.name ≡ none
    → e.status ≡ some status
    → ((is_fallback_triggering (some e) ≡ true) → (status ≡ 429) ⊎ (500 ≤ status))
      × ((status ≡ 429) ⊎ (500 ≤ status) → is_fallback_triggering (some e) ≡ true)
unfolding is_fallback_triggering
status-triggers e status named s = (λ h. ground arith, λ h. ground arith)

-- A call with what the providers answer.
pub record Try (T : Type 0) : Type 0 where
  pub asked : ℕ
  pub ended : ℕ
  pub primary : Called T
  pub fallback : Option (Called T)

module _ {T : Type 0} (shown : Option ErrorInfo → List ℕ) (opts : BreakerOptions) where
  abbrev try : Try T → CircuitBreaker → Called T × CircuitBreaker
  try c b = with_fallback shown opts c.asked c.ended c.primary c.fallback b

  stuck_call :
      (c : Try T) (b : CircuitBreaker)
      → b.state ≡ half_open
      → try c b ≡ (to_fallback shown c.fallback breaker_open, b)
  unfolding with_fallback can_attempt
  stuck_call c b s = ground arith

  stuck_calls :
      (calls : List (Try T)) (b : CircuitBreaker)
      → b.state ≡ half_open
      → All (λ c. try c b ≡ (to_fallback shown c.fallback breaker_open, b)) calls
  stuck_calls [] b s = tt
  stuck_calls (c ∷ calls) b s = (stuck_call c b s, stuck_calls calls b s)

  -- A probe that ends in an error which does not count (a 4xx code, a refusal of the content) is
  -- thrown on without a record. The breaker stays half open: every later call, however late and
  -- whatever the provider would answer, is turned to the fallback and leaves the breaker as it is.
  pub unrecorded_probe-stuck :
      (asked ended : ℕ) (error : Option ErrorInfo) (fallback : Option (Called T))
      (b : CircuitBreaker) (calls : List (Try T))
      → IsSound opts b
      → b.state ≡ open_
      → b.opened_at + opts.half_open_after_ms ≤ asked
      → is_fallback_triggering error ≡ false
      → let (result, b') = with_fallback shown opts asked ended (raised error) fallback b in
        (result ≡ raised error)
        × (b'.state ≡ half_open)
        × All (λ c. try c b' ≡ (to_fallback shown c.fallback breaker_open, b')) calls
  unrecorded_probe-stuck asked ended error fallback b calls sound s late harmless =
      let half : (with_fallback shown opts asked ended (raised error) fallback b).1.state
          ≡ half_open =
        unfold with_fallback can_attempt in ground (arith, sound.probing_half) in
      (
        unfold with_fallback can_attempt in ground (arith, sound.probing_half),
        half,
        stuck_calls calls _ half,
      )

  -- The fallback's answer is the answer exactly where the breaker refuses the call or the error
  -- counts; an answer of the provider is passed on, and so is an error that does not count.
  pub with_fallback_lem :
      (asked ended : ℕ) (primary : Called T) (fallback : Option (Called T)) (b : CircuitBreaker)
      → let (allowed, b') = can_attempt opts asked b in
        let (result, after) = with_fallback shown opts asked ended primary fallback b in
        (allowed ≡ false → (result ≡ to_fallback shown fallback breaker_open) × (after ≡ b'))
        × (allowed ≡ true
            → (r : T) → primary ≡ returned r
            → (result ≡ returned r) × (after ≡ record_outcome opts true ended b'))
        × (allowed ≡ true
            → (e : Option ErrorInfo) → primary ≡ raised e
            → is_fallback_triggering e ≡ true
            → (result ≡ to_fallback shown fallback e)
              × (after ≡ record_outcome opts false ended b'))
        × (allowed ≡ true
            → (e : Option ErrorInfo) → primary ≡ raised e
            → is_fallback_triggering e ≡ false
            → (result ≡ primary) × (after ≡ b'))
  unfolding with_fallback
  with_fallback_lem asked ended primary fallback b =
      (λ a. ground arith, λ a r p. ground arith, λ a e p t. ground arith, λ a e p t. ground arith)
