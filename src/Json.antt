-- ===== src/Json.antt =====
-- The values of a dynamic language that the program stores and evaluates (`unknown`,
-- `Record<string, unknown>`), over a type `N` of numbers. An object is its fields in order; a field
-- that is absent is undefined.
use complete.Base.{String, Bool, List, [], ◌∷◌, Option, none, some, if◌then◌else◌, str_eq}

mutual
  pub data Json (N : Type 0) : Type 0 where
    null : Json N
    bool : Bool → Json N
    num : N → Json N
    str : String → Json N
    arr : Items N → Json N
    obj : Fields N → Json N

  pub data Items (N : Type 0) : Type 0 where
    nil : Items N
    item : Json N → Items N → Items N

  pub data Fields (N : Type 0) : Type 0 where
    end : Fields N
    field : String → Json N → Fields N → Fields N

module _ {N : Type 0} where
  abbrev pub items : Items N → List (Json N)
  items nil = []
  items (item v vs) = v ∷ items vs

  -- `o[key]`
  unfoldable pub prop : String → Fields N → Option (Json N)
  prop key end = none
  prop key (field k v fs) = if str_eq k key then some v else prop key fs
