-- ===== src/RuleEngine/Tests.antt =====
-- A small rule library (apps/datacore/src/rules.ts).
use complete.Base.{
  ℕ, true, false, not, ◌&&◌, List, [], ◌∷◌, none, some, ◌≡◌, refl, All, any, str_eq, eq_iff, ◌<◌,
}
use complete.Store.{find_key, mem_key, list}
use complete.Store.Keys.{HasNoNul}
use complete.Json.{Json, Fields, field, end, prop}
use complete.Rules.Naturals.{naturals, platform, decimal, as_is}
use complete.Rules.Lexer.{
  parse_expression, trim_end, drop_while, is_space, is_digit, is_letter, in_ident, in_number,
  take_while,
}
use complete.Rules.Parser.{parse_or, parse_comparison, split_dots}
use complete.Rules.Values.{evaluate_expression, tree}
use complete.Rules.Evaluation.{evaluate_ast}
use complete.Actions.Drafts.{
  AuthCtx, User, ActionDraft, base_role, has_role, ActionStatus, pending_approval, open_steps,
}
use complete.Actions.World.{ActionType, ok, get_type, ineligible_role, is_eligible}
use complete.Actions.Params.{validate_params}
use complete.Actions.World as Actions
use complete.Actions.Service.{submit, check_payload, check_chain}
use complete.RuleEngine.{Rule, rule_entity, NewRule, block, published, manual, create}
use complete.RuleEngine.Evaluate.{named, is_named, evaluate, verdicts}
use complete.RuleEngine.Blocking.{blocks, is_selected, evaluate-blocks}
use complete.RuleEngine.Submission.{engine, submit-obeys}
use complete.RuleEngine.Single.{IsSingle}
use complete.RuleEngine.Versions.{create-version}
use complete.RuleEngine.Published.{
  Call, creates, publishes, retires, run, run-IsSingle, empty_world,
}
use complete.RuleEngine.Contents.{IsFrozen, Spares, run-IsFrozen}

abbrev small_orders : Rule
small_orders = record {
  id = "r1";
  tenant_id = "t";
  key = "C03";
  name = "small orders";
  description = none;
  expression = "Order.qty > 3";
  scope_object_types = "Order" ∷ [];
  severity = block;
  origin = manual;
  version = 1;
  status = published;
}

abbrev payload : Fields ℕ
payload = field "qty" (Json.num 5) end

evaluate-blocks_example :
    any
      (λ v. not v.passed && v.is_block)
      (evaluate platform "t" (named ("C03" ∷ [])) payload (small_orders ∷ []))
    ≡ any
        (λ r.
          str_eq r.tenant_id "t"
          && (is_selected platform payload (named ("C03" ∷ [])) r && blocks platform payload r))
        (small_orders ∷ [])
evaluate-blocks_example =
    evaluate-blocks platform payload "t" (named ("C03" ∷ [])) (small_orders ∷ [])

abbrev input : NewRule
input = record {
  key = "C03";
  name = "smaller orders";
  description = none;
  expression = "Order.qty > 2";
  scope_object_types = "Order" ∷ [];
  severity = block;
  origin = none;
  status = some published;
}

create-version_example :
    All
      (λ r.
        r.tenant_id ≡ "t"
        → str_eq r.key input.key ≡ true
        → r.version
          < (create "t" "r2" input (record { rules = small_orders ∷ []; sent = [] })).0.version)
      (small_orders ∷ [])
create-version_example =
    create-version "t" "r2" input (record { rules = small_orders ∷ []; sent = [] })

abbrev calls : List Call
calls = creates "t" "r1" input ∷ creates "t" "r2" input ∷ publishes "t" "r1" ∷ []

t_not_nul : HasNoNul "t"
t_not_nul = (λ e. cc, tt)

run-IsSingle_example :
    IsSingle
      (run
        (parse_expression decimal as_is)
        calls
        (empty_world (parse_expression decimal as_is))).rules
run-IsSingle_example =
    run-IsSingle (parse_expression decimal as_is) calls (t_not_nul, (t_not_nul, (t_not_nul, tt)))

frozen : IsFrozen (mem_key "t" "r1") small_orders small_orders
frozen e = (refl, refl)

spared : All (Spares (mem_key "t" "r1")) (creates "t" "r2" input ∷ retires "t" "r1" ∷ [])
unfolding mem_key
spared = ((λ e. let same = (eq_iff "t\0r2" "t\0r1").1 e in cc), (tt, tt))

run-IsFrozen_example :
    All
      (IsFrozen (mem_key "t" "r1") small_orders)
      (run
        (parse_expression decimal as_is)
        (creates "t" "r2" input ∷ retires "t" "r1" ∷ [])
        (record { rules = small_orders ∷ []; sent = [] })).rules
run-IsFrozen_example =
    run-IsFrozen (parse_expression decimal as_is) (mem_key "t" "r1") small_orders
      (creates "t" "r2" input ∷ retires "t" "r1" ∷ [])
      (record { rules = small_orders ∷ []; sent = [] }) spared (frozen, tt)

abbrev order_type : ActionType
order_type = record {
  id = "atype";
  tenant_id = "t";
  key = "place_order";
  params_schema = record { required = []; properties = [] };
  check_rules = "C03" ∷ [];
  approval_chain = "manager" ∷ [];
}

abbrev alice : AuthCtx
alice = record { tenant_id = "t"; user_id = "alice"; roles = "planner" ∷ [] }

abbrev bob : User
bob = record { id = "bob"; tenant_id = "t"; username = "bob"; roles = "manager" ∷ [] }

-- An order of five, which no rule forbids.
abbrev five : ActionDraft ℕ
five = record {
  id = "d1";
  tenant_id = "t";
  action_type_key = "place_order";
  payload = payload;
  origin = record { task_id = none; agent_id = none; user_id = "alice" };
  status = ActionStatus.draft;
  approval_steps = [];
  execution_result = none;
  created_at = 10;
  updated_at = 10;
}

abbrev before : Actions.World ℕ
before = record { drafts = five ∷ []; sent = [] }

abbrev large_orders : Rule
large_orders = record small_orders { expression = "Order.qty > 9" }

abbrev pending : ActionDraft ℕ
pending = record five {
  status = pending_approval;
  approval_steps = open_steps 0 ("manager" ∷ []);
  updated_at = 20;
}

submitted :
    (submit
      (engine platform (large_orders ∷ []) alice)
      (order_type ∷ [])
      (bob ∷ [])
      alice
      "d1"
      20
      before).0
    ≡ ok pending
unfolding submit find_key mem_key get_type list validate_params evaluate verdicts
    evaluate_expression tree parse_expression trim_end drop_while is_space is_digit is_letter
    in_ident in_number take_while parse_or parse_comparison split_dots prop evaluate_ast
    check_payload check_chain ineligible_role is_eligible base_role has_role open_steps
submitted = refl

type_found : get_type (order_type ∷ []) "t" "place_order" ≡ some order_type
unfolding get_type list
type_found = refl

submit-obeys_example :
    any
      (λ r.
        str_eq r.tenant_id "t"
        && (is_named order_type.check_rules r && blocks platform pending.payload r))
      (large_orders ∷ [])
    ≡ false
submit-obeys_example =
    submit-obeys platform (large_orders ∷ []) (order_type ∷ []) (bob ∷ []) alice "d1" 20 before
      pending order_type submitted type_found
