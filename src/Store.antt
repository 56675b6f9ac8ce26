-- ===== src/Store.antt =====
-- The in-memory repository of DataCore (apps/datacore/src/repo/memory.ts, `memKey` and `MemStore`):
-- a JavaScript Map from the composite key (tenant, id) to a record, as the list of its values in
-- insertion order. `structuredClone` has no counterpart: values of the model are not shared.
mod Tests
pub mod Keys
pub mod Laws
use Prim.Native.String
use complete.Base.{String, Bool, List, [], ◌∷◌, Option, none, some, ◌&&◌, if◌then◌else◌, str_eq}

-- What a stored type has: `T extends { id: string; tenantId: string }`.
pub record Entity (T : Type 0) : Type 0 where
  pub tenant_id : T → String
  pub id : T → String

-- `${tenantId}\0${id}`: the separator is the character of code 0.
unfoldable pub mem_key : String → String → String
mem_key tenant id = String.◌++◌ tenant (String.◌++◌ "\0" id)

module _ {T : Type 0} ⦃e : Entity T⦄ where
  abbrev pub key_of : T → String
  key_of x = mem_key (e.tenant_id x) (e.id x)

  unfoldable pub find_key : String → List T → Option T
  find_key k [] = none
  find_key k (x ∷ xs) = if str_eq (key_of x) k then some x else find_key k xs

  abbrev pub get : String → String → List T → Option T
  get tenant id s = find_key (mem_key tenant id) s

  -- `Map.set` keeps the place of a key that is there, and appends a new one.
  unfoldable pub put : T → List T → List T
  put x [] = x ∷ []
  put x (y ∷ ys) = if str_eq (key_of y) (key_of x) then x ∷ ys else y ∷ put x ys

  remove_key : String → List T → List T
  remove_key k [] = []
  remove_key k (x ∷ xs) = if str_eq (key_of x) k then xs else x ∷ remove_key k xs

  pub remove : String → String → List T → List T
  unfolding remove_key
  remove tenant id s = remove_key (mem_key tenant id) s

  unfoldable pub list : String → (T → Bool) → List T → List T
  list tenant pred [] = []
  list tenant pred (x ∷ xs) =
      let rest = list tenant pred xs in
      if str_eq (e.tenant_id x) tenant && pred x then x ∷ rest else rest
