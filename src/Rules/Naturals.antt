-- ===== src/Rules/Naturals.antt =====
-- The numbers of the tests: the language (apps/datacore/src/ruledsl.ts) over the natural numbers, and
-- a platform for it.
use complete.Base.{
  ℕ, ◌+◌, ◌*◌, ◌-◌, code, String, Bool, false, Option, none, ltb, leb, ◌==◌, if◌then◌else◌,
}
use complete.Json.{Json}
use complete.Rules.{Numbers}
use complete.Rules.Values.{Platform}

instance abbrev pub naturals : Numbers ℕ
naturals = record {
  equal = λ a b. a == b;
  same_value = λ a b. a == b;
  less = ltb;
  at_most = leb;
  plus = λ a b. a + b;
  divide = λ a b. 0;
  least = λ a b. if leb a b then a else b;
  greatest = λ a b. if leb a b then b else a;
  floor = λ a. a;
  of_nat = λ a. a;
}

-- Decimal digits, the rest of a text passed over.
abbrev decimal_from : ℕ → String → ℕ
decimal_from n String.[] = n
decimal_from n (String.◌∷◌ c s) = decimal_from (10 * n + (code c - b'0')) s

abbrev pub decimal : String → ℕ
decimal s = decimal_from 0 s

abbrev pub as_is : String → String
as_is s = s

abbrev pub no_index : String → Option ℕ
no_index s = none

abbrev pub never_same : Json ℕ → Json ℕ → Bool
never_same v w = false

abbrev pub platform : Platform ℕ
platform = record { number = decimal; upper = as_is; index_of = no_index; same_object = never_same }
