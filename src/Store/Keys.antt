-- ===== src/Store/Keys.antt =====
-- The composite keys of the repository (apps/datacore/src/repo/memory.ts, `memKey`): a tenant whose
-- id holds no character of code 0 shares no key with another tenant.
use Prim.Native.String.{[], ◌∷◌}
use text.Mathlib.TextLemmas.{nil-append, cons-append}
use complete.Base.{String, Char, code, List, ◌≡◌, ◌≢◌, refl, sym, str_eq-false}
use complete.Store.{Entity, mem_key, key_of, get, put}
use complete.Store.Laws.{find_key-put}

abbrev pub HasNoNul : String → Type 0
HasNoNul [] = Unit
HasNoNul (c ∷ s) = (code c ≢ 0) × HasNoNul s

abbrev nul : Char
nul = "\0"

mem_key-nil : (i : String) → mem_key "" i ≡ nul ∷ i
unfolding mem_key
mem_key-nil i = rw nil-append (rw cons-append (rw nil-append refl))

mem_key-cons : (c : Char) (t i : String) → mem_key (c ∷ t) i ≡ c ∷ mem_key t i
unfolding mem_key
mem_key-cons c t i = rw cons-append

nul_head : (c : Char) (s s' : String) → code c ≢ 0 → nul ∷ s ≡ c ∷ s' → ⊥
nul_head c s s' h e = let same : nul ≡ c = cc in h (rw (← same) refl)

pub mem_key-injective :
    (t t' i i' : String) → HasNoNul t → HasNoNul t' → mem_key t i ≡ mem_key t' i' → t ≡ t'
mem_key-injective [] [] i i' h h' e = refl
mem_key-injective [] (c ∷ t') i i' h h' e =
    absurd (nul_head c i (mem_key t' i') h'.0 (rw (mem_key-nil, mem_key-cons) at e))
mem_key-injective (c ∷ t) [] i i' h h' e =
    absurd (nul_head c i' (mem_key t i) h.0 (sym (rw (mem_key-cons, mem_key-nil) at e)))
mem_key-injective (c ∷ t) (c' ∷ t') i i' h h' e =
    let e' : c ∷ mem_key t i ≡ c' ∷ mem_key t' i' = rw (mem_key-cons, mem_key-cons) at e in
    let rest : mem_key t i ≡ mem_key t' i' = cc in
    let ih : t ≡ t' = mem_key-injective t t' i i' h.1 h'.1 rest in cc

-- A write of one tenant's record changes no read of another tenant, where no tenant's id holds the
-- character of code 0, by which the keys are joined.
pub put-tenant_isolated :
    {T : Type 0} ⦃e : Entity T⦄ (x : T) (s : List T) (tenant id : String)
    → HasNoNul tenant
    → HasNoNul (e.tenant_id x)
    → e.tenant_id x ≢ tenant
    → get tenant id (put x s) ≡ get tenant id s
put-tenant_isolated ⦃e⦄ x s tenant id h h' ne =
    let other : key_of x ≢ mem_key tenant id =
      λ same. ne (mem_key-injective (e.tenant_id x) tenant (e.id x) id h' h same) in
    rw (find_key-put (mem_key tenant id) x s)
      (rw (str_eq-false (key_of x) (mem_key tenant id) other))
