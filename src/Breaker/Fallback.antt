-- ===== src/Breaker/Fallback.antt =====
-- Calling a provider through its breaker, with one fallback: `isFallbackTriggering` of
-- apps/agentcore/src/llm/breaker.ts, and `ProviderRoutedClient` (`toFallback`, `recordBreaker`,
-- `withFallback`) of apps/agentcore/src/llm/providers.ts. Texts are lists of character codes. What a
-- call of a provider comes to is an argument, and so are the times before and after it.
pub mod Laws
use complete.Base.{
  ℕ, ◌+◌, String, code, Bool, true, false, not, ◌&&◌, ◌||◌, List, [], ◌∷◌, Option, none, some, map,
  if◌then◌else◌, leb, ◌==◌, any,
}
use complete.Breaker.{CircuitBreaker, BreakerOptions, can_attempt, record_outcome}
use Prim.Native.String

-- The fields that are read of a thrown value, each where it has the expected type.
pub record ErrorInfo : Type 0 where
  -- it is an instance of `Error`
  pub is_error : Bool
  pub name : Option (List ℕ)
  pub status : Option ℕ
  pub status_code : Option ℕ
  pub code : Option (List ℕ)
  pub message : Option (List ℕ)

abbrev pub codes : String → List ℕ
codes String.[] = []
codes (String.◌∷◌ c s) = code c ∷ codes s

-- Case-insensitive search of ASCII words: a regular expression `/a|b/i`.
abbrev lower : ℕ → ℕ
lower c = if leb b'A' c && leb c b'Z' then c + 32 else c

begins_ci : List ℕ → List ℕ → Bool
begins_ci [] text = true
begins_ci (w ∷ word) [] = false
begins_ci (w ∷ word) (c ∷ text) = (lower w == lower c) && begins_ci word text

contains_ci : List ℕ → List ℕ → Bool
contains_ci word [] = begins_ci word []
contains_ci word (c ∷ text) = begins_ci word (c ∷ text) || contains_ci word text

unfoldable pub mentions : List String → List ℕ → Bool
unfolding begins_ci contains_ci
mentions words text = any (λ w. contains_ci (codes w) text) words

abbrev pub rejection_names : List String
rejection_names = "ClassifierParseError" ∷ "ContentModeration" ∷ "moderation" ∷ []

abbrev pub network_codes : List String
network_codes =
    "ETIMEDOUT" ∷ "ECONNRESET" ∷ "ECONNREFUSED" ∷ "EAI_AGAIN" ∷ "ENOTFOUND" ∷ "EPIPE" ∷ []

abbrev pub network_messages : List String
network_messages =
    "timeout" ∷ "timed out" ∷ "socket hang up" ∷ "network" ∷ "fetch failed" ∷ "disabled" ∷ []

abbrev mentions? : List String → Option (List ℕ) → Bool
mentions? words none = false
mentions? words (some text) = mentions words text

-- `status` if it is a number, else `statusCode` if that is one.
abbrev status_of : Option ℕ → Option ℕ → Option ℕ
status_of none other = other
status_of (some s) other = some s

triggers_by : Option ℕ → ErrorInfo → Bool
triggers_by (some status) e = status == 429 || leb 500 status
triggers_by none e = mentions? network_codes e.code || mentions? network_messages e.message

-- `none` is a thrown null or undefined.
unfoldable pub is_fallback_triggering : Option ErrorInfo → Bool
unfolding triggers_by
is_fallback_triggering none = false
is_fallback_triggering (some e) =
    if mentions? rejection_names e.name
    then false
    else triggers_by (status_of e.status e.status_code) e

-- What a call comes to.
pub data Called (T : Type 0) : Type 0 where
  returned : T → Called T
  raised : Option ErrorInfo → Called T

-- The error that says that the breaker is open.
abbrev pub breaker_open : Option ErrorInfo
breaker_open = some (record {
  is_error = true;
  name = some (codes "Error");
  status = none;
  status_code = none;
  code = none;
  message = some (codes "circuit breaker open");
})

-- `new Error(String(err))`
abbrev pub new_error : List ℕ → Option ErrorInfo
new_error text = some (record {
  is_error = true;
  name = some (codes "Error");
  status = none;
  status_code = none;
  code = none;
  message = some text;
})

-- `shown` is the `String(err)` of a thrown value.
abbrev pub as_error : (Option ErrorInfo → List ℕ) → Option ErrorInfo → Option ErrorInfo
as_error shown none = new_error (shown none)
as_error shown (some e) = if e.is_error then some e else new_error (shown (some e))

-- With no fallback provider the error is thrown; else its call decides.
unfoldable pub to_fallback :
    {T : Type 0} → (Option ErrorInfo → List ℕ) → Option (Called T) → Option ErrorInfo → Called T
to_fallback shown none error = raised (as_error shown error)
to_fallback shown (some result) error = result

module _ {T : Type 0} (shown : Option ErrorInfo → List ℕ) (opts : BreakerOptions) where
  unfoldable pub with_fallback :
      (asked ended : ℕ) → Called T → Option (Called T) → CircuitBreaker → Called T × CircuitBreaker
  unfolding to_fallback
  with_fallback asked ended primary fallback b =
      let (allowed, b') = can_attempt opts asked b in
      if not allowed then (to_fallback shown fallback breaker_open, b') else elim primary [
        | returned r ↦ (returned r, record_outcome opts true ended b')
        | raised error ↦
            if not (is_fallback_triggering error)
            then (raised error, b')
            else (to_fallback shown fallback error, record_outcome opts false ended b')
      ]
