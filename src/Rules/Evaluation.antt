-- ===== src/Rules/Evaluation.antt =====
-- The evaluator (apps/datacore/src/ruledsl.ts, `sustainField` to `evaluateAst`). A value that may be
-- undefined is an Option. Inherited properties (such as `toString`) count as undefined.
use complete.Base.{
  ℕ, suc, ◌-◌, ◌==◌, String, Bool, true, false, not, ◌&&◌, ◌||◌, List, [], ◌∷◌, ◌++◌, Option, none,
  some, map, if◌then◌else◌, str_eq, length, any,
}
use complete.Json.{
  Json, null, bool, num, str, arr, obj, Items, nil, item, Fields, end, field, items, prop,
}
use complete.Rules.{
  Numbers, CmpOp, gt, ge, lt, le, eq, ne, is_in, Func, min, max, count, avg, Operand, AstNode, both,
  either, negated, cmp, sustain,
}

pub record RuleUser (N : Type 0) : Type 0 where
  pub user_id : Option String
  pub roles : Option (List String)
  pub attributes : Fields N

-- `sustain` is the provider of the rule scan, if there is one.
pub record EvalContext (N : Type 0) : Type 0 where
  pub payload : Fields N
  pub user : Option (RuleUser N)
  pub sustain : Option (AstNode N → N → Bool)

abbrev is_empty : List String → Bool
is_empty [] = true
is_empty (s ∷ ss) = false

abbrev or_else {ℓ} : {A : Type ℓ} → Option A → Option A → Option A
or_else none b = b
or_else (some a) b = some a

module _ {N : Type 0} where
  -- The field that is on the left, or else on the right.
  unfoldable pub operand_field : Operand N → Option (List String)
  operand_field (Operand.field path) = some path
  operand_field _ = none

  unfoldable pub sustain_field : AstNode N → Option (List String)
  unfolding operand_field
  sustain_field (both l r) = or_else (sustain_field l) (sustain_field r)
  sustain_field (either l r) = or_else (sustain_field l) (sustain_field r)
  sustain_field (negated a) = sustain_field a
  sustain_field (cmp o l r) = or_else (operand_field l) (operand_field r)
  sustain_field (sustain a days) = none

  abbrev append_fields : Fields N → Fields N → Fields N
  append_fields end gs = gs
  append_fields (field k v fs) gs = field k v (append_fields fs gs)

  abbrev strings : List String → Items N
  strings [] = nil
  strings (s ∷ ss) = item (str s) (strings ss)

  abbrev id_field : Option String → Fields N → Fields N
  id_field none fs = fs
  id_field (some s) fs = field "userId" (str s) fs

  abbrev roles_field : Option (List String) → Fields N → Fields N
  roles_field none fs = fs
  roles_field (some rs) fs = field "roles" (arr (strings rs)) fs

  -- What `user.…` reads: the attributes lie over the fields of their names.
  abbrev pub user_root : Option (RuleUser N) → Fields N
  user_root none = field "attributes" (obj end) end
  user_root (some u) =
      append_fields u.attributes
        (id_field u.user_id (roles_field u.roles (field "attributes" (obj u.attributes) end)))

  abbrev nth : ℕ → List (Json N) → Option (Json N)
  nth i [] = none
  nth i (v ∷ vs) = if i == 0 then some v else nth (i - 1) vs

  abbrev numbers_of : List (Option (Json N)) → List N
  numbers_of [] = []
  numbers_of (some (num v) ∷ vs) = v ∷ numbers_of vs
  numbers_of (_ ∷ vs) = numbers_of vs

  abbrev elements : Option (Json N) → Option (List (Json N))
  elements (some (arr vs)) = some (items vs)
  elements _ = none

  abbrev as_list : Option (Json N) → List (Option (Json N))
  as_list none = []
  as_list (some (arr vs)) = map some (items vs)
  as_list (some v) = some v ∷ []

  -- `index_of` reads a property name as an index of an array, and `same_object` compares arrays and
  -- objects by their identity, which values of the model have not.
  module _ ⦃n : Numbers N⦄ (index_of : String → Option ℕ)
      (same_object : Json N → Json N → Bool) where
    abbrev pub member : String → Json N → Option (Json N)
    member seg (obj fs) = prop seg fs
    member seg (arr vs) =
        if str_eq seg "length"
        then some (num (n.of_nat (length (items vs))))
        else elim (index_of seg) [ none ↦ none | some i ↦ nth i (items vs) ]
    member seg _ = none

    unfoldable pub drill : Option (Json N) → List String → Option (Json N)
    drill cur [] = cur
    drill none (seg ∷ path) = none
    drill (some v) (seg ∷ path) = drill (member seg v) path

    unfoldable pub resolve_field : Fields N → List String → Option (Json N)
    unfolding drill
    resolve_field payload [] = drill (some (obj payload)) []
    resolve_field payload (seg ∷ []) = drill (some (obj payload)) (seg ∷ [])
    resolve_field payload (seg ∷ (seg' ∷ path)) =
        or_else (drill (some (obj payload)) (seg ∷ (seg' ∷ path)))
          (drill (some (obj payload)) (seg' ∷ path))

    -- The collection that `head` leads to, where it leads to an array, first with its object type and
    -- then without.
    abbrev pub collection_at : Fields N → List String → Option (List (Json N))
    collection_at payload (seg ∷ (seg' ∷ path)) = elements (
        or_else (drill (some (obj payload)) (seg ∷ (seg' ∷ path)))
          (drill (some (obj payload)) (seg' ∷ path)))
    collection_at payload head = elements (drill (some (obj payload)) head)

    abbrev mapped : List String → Option (List (Json N)) → Option (List (Option (Json N)))
    mapped path none = none
    mapped path (some vs) = some (map (λ v. drill (some v) path) vs)

    -- The loop from the longest head down, as the recursion that tries the longer heads first:
    -- `taken` is the head so far and the list what follows it.
    unfoldable pub split_collection :
        Fields N → (taken rest : List String) → Option (List (Option (Json N)))
    split_collection payload taken [] = none
    split_collection payload taken (seg ∷ path) =
        let longer = split_collection payload (taken ++ seg ∷ []) path in
        or_else longer
          (mapped (seg ∷ path) (if is_empty taken then none else collection_at payload taken))

    unfoldable pub resolve_collection : Fields N → List String → List (Option (Json N))
    unfolding split_collection resolve_field
    resolve_collection payload path = elim (split_collection payload [] path) [
      | some vs ↦ vs
      | none ↦ as_list (resolve_field payload path)
    ]

    abbrev extreme : (N → N → N) → N → List N → N
    extreme f best [] = best
    extreme f best (v ∷ vs) = extreme f (f best v) vs

    unfoldable pub aggregate : Func → List (Option (Json N)) → N
    aggregate count values = n.of_nat (length values)
    aggregate name values = elim (numbers_of values) [
      | [] ↦ n.of_nat 0
      | v ∷ vs ↦ elim name [
        | min ↦ extreme n.least v vs
        | max ↦ extreme n.greatest v vs
        | avg ↦ n.divide (extreme n.plus (n.plus (n.of_nat 0) v) vs) (n.of_nat (suc (length vs)))
        | _ ↦ extreme n.plus (n.plus (n.of_nat 0) v) vs
      ]
    ]

    unfoldable pub eval_operand : Operand N → EvalContext N → Option (Json N)
    unfolding drill resolve_field resolve_collection aggregate
    eval_operand (Operand.literal v) ctx = some v
    eval_operand (Operand.field path) ctx = resolve_field ctx.payload path
    eval_operand (Operand.user path) ctx = drill (some (obj (user_root ctx.user))) path
    eval_operand (Operand.func name path) ctx =
        some (num (aggregate name (resolve_collection ctx.payload path)))

    -- Equality of values, by the given one of numbers.
    abbrev pub equal_by : (N → N → Bool) → Option (Json N) → Option (Json N) → Bool
    equal_by same none none = true
    equal_by same (some null) (some null) = true
    equal_by same (some (bool b)) (some (bool c)) = b && c || not b && not c
    equal_by same (some (num a)) (some (num b)) = same a b
    equal_by same (some (str s)) (some (str t)) = str_eq s t
    equal_by same (some (arr vs)) (some (arr ws)) = same_object (arr vs) (arr ws)
    equal_by same (some (obj fs)) (some (obj gs)) = same_object (obj fs) (obj gs)
    equal_by same _ _ = false

    -- `arr.includes(v)`
    abbrev pub includes : List (Option (Json N)) → Option (Json N) → Bool
    includes vs v = any (λ w. equal_by n.same_value w v) vs

    -- The right side of IN as a list.
    abbrev pub in_list : Option (Json N) → List (Option (Json N))
    in_list (some null) = []
    in_list r = as_list r

    abbrev ordered : (N → N → Bool) → Option (Json N) → Option (Json N) → Bool
    ordered holds (some (num a)) (some (num b)) = holds a b
    ordered holds _ _ = false

    unfoldable pub compare : CmpOp → Option (Json N) → Option (Json N) → Bool
    compare is_in l r = elim (elements l) [
      | some vs ↦ any (λ v. includes (in_list r) (some v)) vs
      | none ↦ includes (in_list r) l
    ]
    compare eq l r = equal_by n.equal l r
    compare ne l r = not (equal_by n.equal l r)
    compare gt l r = ordered (λ a b. n.less b a) l r
    compare ge l r = ordered (λ a b. n.at_most b a) l r
    compare lt l r = ordered n.less l r
    compare le l r = ordered n.at_most l r

    unfoldable pub evaluate_ast : AstNode N → EvalContext N → Bool
    unfolding compare eval_operand
    evaluate_ast (both l r) ctx = evaluate_ast l ctx && evaluate_ast r ctx
    evaluate_ast (either l r) ctx = evaluate_ast l ctx || evaluate_ast r ctx
    evaluate_ast (negated a) ctx = not (evaluate_ast a ctx)
    evaluate_ast (cmp o l r) ctx = compare o (eval_operand l ctx) (eval_operand r ctx)
    evaluate_ast (sustain a days) ctx = elim ctx.sustain [
      | none ↦ false
      | some holds ↦ holds a days
    ]
