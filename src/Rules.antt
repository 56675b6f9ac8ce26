-- ===== src/Rules.antt =====
-- The rule language (apps/datacore/src/ruledsl.ts): its syntax trees, and what is asked of numbers.
-- `Lexer`, `Parser` and `Evaluation` follow the source; the other children have what holds of them.
pub mod Parser
pub mod Lexer
pub mod Positions
pub mod Fuel
pub mod Termination
pub mod Grammar
pub mod Complete
pub mod Returns
pub mod Sound
pub mod Expression
pub mod Values
pub mod Evaluation
pub mod Laws
pub mod Naturals
mod Tests
use complete.Base.{ℕ, String, Bool, List, Option}
use complete.Json.{Json}

-- The operations on JavaScript numbers that the language uses.
pub record Numbers (N : Type 0) : Type 0 where
  -- `===` and the equality of `includes`, which differ at NaN
  pub equal : N → N → Bool
  pub same_value : N → N → Bool
  pub less : N → N → Bool
  pub at_most : N → N → Bool
  pub plus : N → N → N
  pub divide : N → N → N
  pub least : N → N → N
  pub greatest : N → N → N
  pub floor : N → N
  pub of_nat : ℕ → N

pub data CmpOp : Type 0 where
  gt ge lt le eq ne is_in : CmpOp

pub data Func : Type 0 where
  sum min max count avg : Func

pub data Operand (N : Type 0) : Type 0 where
  field : (path : List String) → Operand N
  literal : (value : Json N) → Operand N
  func : (name : Func) (path : List String) → Operand N
  user : (path : List String) → Operand N

pub data AstNode (N : Type 0) : Type 0 where
  both : (left right : AstNode N) → AstNode N
  either : (left right : AstNode N) → AstNode N
  negated : AstNode N → AstNode N
  cmp : CmpOp → (left right : Operand N) → AstNode N
  sustain : AstNode N → (days : N) → AstNode N

pub data Form (N : Type 0) : Type 0 where
  ident : String → Form N
  num : N → Form N
  str : String → Form N
  op : CmpOp → Form N
  punct : String → Form N
  userref : String → Form N

-- A token and the place where it starts.
pub record Token (N : Type 0) : Type 0 where
  pub form : Form N
  pub pos : ℕ

pub data DslError : Type 0 where
  unterminated_reference : DslError
  unterminated_string : DslError
  unexpected_character : DslError
  trailing_tokens : DslError
  sustain_shape : DslError
  sustain_days : DslError
  sustain_close : DslError
  expected_close : DslError
  expected_operator : DslError
  unexpected_end : DslError
  unterminated_array : DslError
  array_element : DslError
  function_argument : DslError
  unexpected_keyword : DslError
  unexpected_token : DslError
  empty_expression : DslError
