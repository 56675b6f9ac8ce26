-- ===== src/Authz/Tests.antt =====
-- Decisions on a resource with one policy (apps/datacore/src/authz.ts).
use complete.Base.{true, false, [], ◌∷◌, some, ◌≡◌, ◌≢◌, ◌⊎◌, ◌↔◌, refl}
use complete.Store.{list}
use complete.Actions.Drafts.{AuthCtx, base_role}
use complete.Authz.{
  object_type, read, PermissionPolicy, is_platform_admin, role_matches, matching, filters_of,
  decide, require,
}
use complete.Authz.Grants.{IsAttached, Grants, IsOperator}
use complete.Authz.Laws.{decide_iff}
use complete.Base.{ℕ, String, All, Any}
use complete.Json.{Json, Fields, field, end, prop}
use complete.Rules.Naturals.{naturals, platform}
use complete.Rules.Lexer.{
  parse_expression, trim_end, drop_while, is_space, is_digit, is_letter, in_ident, take_while,
}
use complete.Rules.Parser.{parse_or, parse_comparison, split_dots}
use complete.Rules.Values.{tree, evaluate_expression}
use complete.Rules.Evaluation.{evaluate_ast}
use complete.Authz.Rows.{row_allowed, explain}
use complete.Authz.Visibility.{Passes, row_allowed_iff, visible_iff, explain-fails_closed}

abbrev planner : AuthCtx
planner = record { tenant_id = "t"; user_id = "alice"; roles = "planner:north" ∷ [] }

abbrev own_orders : PermissionPolicy
own_orders = record {
  id = "pol";
  tenant_id = "t";
  kind = object_type;
  key = "Order";
  grants = record { role = "planner"; ops = read ∷ [] } ∷ [];
  row_filter = some "Order.owner == user.userId";
}

decide_iff_example :
    ((decide (own_orders ∷ []) planner object_type "Order" read).allowed ≡ true) ↔ (
      (¬ IsOperator planner.roles)
      × (All (λ p. ¬ IsAttached planner object_type "Order" p) (own_orders ∷ [])
          ⊎ Any
              (λ p. IsAttached planner object_type "Order" p × Grants planner.roles read p)
              (own_orders ∷ [])))
decide_iff_example = decide_iff (own_orders ∷ []) planner object_type "Order" read

filters :
    require (own_orders ∷ []) planner object_type "Order" read
    ≡ some ("Order.owner == user.userId" ∷ [])
unfolding require decide matching filters_of list is_platform_admin role_matches base_role
filters = refl

-- The owner of the row, as the row and the user have it.
abbrev row : String → Fields ℕ
row owner = field "owner" (Json.str owner) end

owned_by : row_allowed platform planner end ("owner == user.userId" ∷ []) (row "alice") ≡ true
unfolding row_allowed evaluate_expression tree parse_expression evaluate_ast trim_end drop_while
    is_space is_digit is_letter in_ident parse_or take_while parse_comparison split_dots prop
owned_by = refl

row_allowed_iff_example :
    (row_allowed platform planner end ("owner == user.userId" ∷ []) (row "bob") ≡ true)
    ↔ All (Passes platform planner end (row "bob")) ("owner == user.userId" ∷ [])
row_allowed_iff_example =
    row_allowed_iff platform planner end (row "bob") ("owner == user.userId" ∷ [])

visible_iff_example :
    (row_allowed platform planner end ("Order.owner == user.userId" ∷ []) (row "bob") ≡ true)
    ↔ All
        (λ p.
          IsAttached planner object_type "Order" p
          → Grants planner.roles read p
          → (f : String) → p.row_filter ≡ some f
          → f ≢ ""
          → Passes platform planner end (row "bob") f)
        (own_orders ∷ [])
visible_iff_example =
    visible_iff platform planner end (row "bob") (own_orders ∷ []) object_type "Order" read
      ("Order.owner == user.userId" ∷ []) filters

-- A filter that does not parse.
abbrev half_written : PermissionPolicy
half_written = record own_orders { row_filter = some "owner ==" }

half_written-invalid :
    (explain platform (half_written ∷ []) planner object_type "Order" read).row_filter_valid ≡ false
unfolding explain tree parse_expression trim_end drop_while is_space is_digit is_letter in_ident
    parse_or take_while parse_comparison split_dots decide matching filters_of list
    is_platform_admin role_matches base_role
half_written-invalid = refl

explain-fails_closed_example :
    row_allowed platform planner end
      (decide (half_written ∷ []) planner object_type "Order" read).row_filters
      (row "alice")
    ≡ false
explain-fails_closed_example =
    explain-fails_closed platform planner end (row "alice") (half_written ∷ []) object_type "Order"
      read half_written-invalid
