-- ===== src/Actions/Params.antt =====
-- The check of an action's payload against its type (apps/datacore/src/actions.ts, `validateParams`).
use complete.Base.{
  String, Bool, true, false, ◌||◌, List, [], ◌∷◌, Option, none, some, if◌then◌else◌, str_eq,
}
use complete.Json.{Json, null, bool, num, str, arr, obj, Fields, prop}

-- `required` (none if it is no array) and, for each property, its `type` if it has one.
pub record ParamsSchema : Type 0 where
  pub required : List String
  pub properties : List (String × Option String)

pub data ParamError : Type 0 where
  is_required : (key : String) → ParamError
  must_be_of_type : (key type : String) → ParamError

abbrev type_or_empty : Option String → String
type_or_empty none = ""
type_or_empty (some t) = t

module _ {N : Type 0} where
  -- undefined, null or the empty text
  abbrev is_missing : Option (Json N) → Bool
  is_missing none = true
  is_missing (some null) = true
  is_missing (some (str s)) = str_eq s ""
  is_missing (some _) = false

  -- `typeof` of a value, with arrays told apart; null is an object.
  abbrev fits_type : String → Json N → Bool
  fits_type t (str s) = str_eq t "string"
  fits_type t (num n) = str_eq t "number"
  fits_type t (bool b) = str_eq t "boolean"
  fits_type t null = str_eq t "object"
  fits_type t (obj fs) = str_eq t "object"
  fits_type t (arr vs) = str_eq t "object" || str_eq t "array"

  unfoldable pub check_required : List String → Fields N → Option ParamError
  check_required [] payload = none
  check_required (k ∷ ks) payload =
      if is_missing (prop k payload) then some (is_required k) else check_required ks payload

  -- A property with no type, or of the empty type, or an undefined value, is not checked.
  fits : Option String → Option (Json N) → Bool
  fits none v = true
  fits (some t) none = true
  fits (some t) (some v) = str_eq t "" || fits_type t v

  unfoldable pub check_types : List (String × Option String) → Fields N → Option ParamError
  unfolding fits
  check_types [] payload = none
  check_types ((k, type) ∷ props) payload =
      if fits type (prop k payload)
      then check_types props payload
      else some (must_be_of_type k (type_or_empty type))

  unfoldable pub validate_params : ParamsSchema → Fields N → Option ParamError
  unfolding check_required check_types
  validate_params schema payload = elim (check_required schema.required payload) [
    | some e ↦ some e
    | none ↦ check_types schema.properties payload
  ]
