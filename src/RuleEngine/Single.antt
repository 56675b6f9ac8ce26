-- ===== src/RuleEngine/Single.antt =====
-- When a rule is the only published one of its tenant and key (apps/datacore/src/rules.ts).
use complete.Base.{
  inl, inr, String, Bool, true, not, ◌&&◌, List, [], ◌∷◌, some, ◌≡◌, ◌≢◌, sym, ◌∙◌, arith, All,
  Bool-cases, str_eq, eq_iff, filter, subst, All-of_filter,
}
use complete.Store.{key_of, mem_key, find_key, put, list, get}
use complete.Store.Laws.{All-of_list, find_key-key, All-put, All-find_key}
use complete.Store.Keys.{HasNoNul, mem_key-injective}
use complete.RuleEngine.{
  Rule, rule_entity, is_published, published, retire_rule, retire_all, siblings, versions_of,
}
use complete.RuleEngine.Versions.{put-published, retire_all-published, list-misses}

-- Two published rules of a tenant with one key are one rule.
abbrev pub IsSingle : List Rule → Type 0
IsSingle s =
    (k k' : String) (a b : Rule)
    → find_key k s ≡ some a
    → find_key k' s ≡ some b
    → a.tenant_id ≡ b.tenant_id
    → a.key ≡ b.key
    → is_published a.status ≡ true
    → is_published b.status ≡ true
    → k ≡ k'

abbrev pub IsValid : List Rule → Type 0
IsValid s = All (λ r. HasNoNul r.tenant_id) s × IsSingle s

-- The other published rules of its tenant and key are none.
unfoldable pub IsAlone : Rule → List Rule → Type 0
IsAlone x s =
    (k : String) (a : Rule)
    → find_key k s ≡ some a
    → a.tenant_id ≡ x.tenant_id
    → a.key ≡ x.key
    → is_published a.status ≡ true
    → key_of x ≡ k

pub put-IsSingle :
    (x : Rule) (s : List Rule)
    → IsSingle s
    → (is_published x.status ≡ true → IsAlone x s)
    → IsSingle (put x s)
unfolding IsAlone
put-IsSingle x s h alone k k' a b e e' t key p p' = elim (put-published k x s a e) [
  | inl (q, x_a) ↦ elim (put-published k' x s b e') [
    | inl (q', x_b) ↦ sym q ∙ q'
    | inr (q', old') ↦ sym q ∙ alone (ground arith) k' b old' (ground arith) (ground arith) p'
  ]
  | inr (q, old) ↦ elim (put-published k' x s b e') [
    | inl (q', x_b) ↦ sym (alone (ground arith) k a old (ground arith) (ground arith) p) ∙ q'
    | inr (q', old') ↦ h k k' a b old old' t key p p'
  ]
]

pub retire_all-IsValid :
    (olds s : List Rule)
    → All (λ r. HasNoNul r.tenant_id) olds
    → IsValid s
    → IsValid (retire_all olds s)
unfolding retire_all
retire_all-IsValid [] s o h = h
retire_all-IsValid (x ∷ olds) s o h = retire_all-IsValid olds (put (retire_rule x) s) o.1 (
  All-put (λ r. HasNoNul r.tenant_id) (retire_rule x) s o.0 h.0,
  put-IsSingle (retire_rule x) s h.1 (λ e. absurd (cc)),
)

-- A rule that is read has the tenant for which it is read.
pub found-tenant :
    (tenant id : String) (s : List Rule) (r : Rule)
    → HasNoNul tenant
    → All (λ x. HasNoNul x.tenant_id) s
    → get tenant id s ≡ some r
    → r.tenant_id ≡ tenant
found-tenant tenant id s r n h e =
    mem_key-injective r.tenant_id tenant r.id id
      (All-find_key (λ x. HasNoNul x.tenant_id) (mem_key tenant id) s r h e) n
      (find_key-key (mem_key tenant id) s r e)

pub list-HasNoNul :
    (tenant : String) (pred : Rule → Bool) (s : List Rule)
    → HasNoNul tenant
    → All (λ r. HasNoNul r.tenant_id) (list tenant pred s)
unfolding list
list-HasNoNul tenant pred [] n = tt
list-HasNoNul tenant pred (r ∷ s) n = elim (Bool-cases (str_eq r.tenant_id tenant && pred r)) [
  | inl e ↦ rw e (
    subst HasNoNul (sym ((eq_iff r.tenant_id tenant).0 (ground arith))) n,
    list-HasNoNul tenant pred s n,
  )
  | inr e ↦ rw e (list-HasNoNul tenant pred s n)
]

pub put-IsValid :
    (x : Rule) (s : List Rule)
    → HasNoNul x.tenant_id
    → IsValid s
    → (is_published x.status ≡ true → IsAlone x s)
    → IsValid (put x s)
put-IsValid x s n h alone =
    (All-put (λ r. HasNoNul r.tenant_id) x s n h.0, put-IsSingle x s h.1 alone)

-- Once its other versions are retired, a rule is alone.
pub create-IsAlone :
    (x : Rule) (key : String) (s : List Rule)
    → x.key ≡ key
    → IsAlone x (retire_all (filter (λ r. is_published r.status) (versions_of x.tenant_id key s)) s)
unfolding IsAlone
create-IsAlone x key s same k a e t ke p =
    let olds = versions_of x.tenant_id key s in
    let gone = retire_all-published k (filter (λ r. is_published r.status) olds) s a e p in
    let missed = All-of_filter (λ r. key_of r ≢ k) (λ r. is_published r.status) olds gone.0 in
    let all =
      All-of_list (λ r. is_published r.status ≡ true → key_of r ≢ k) x.tenant_id
        (λ r. str_eq r.key key) s missed in
    absurd (
      All-find_key
        (λ r.
          r.tenant_id ≡ x.tenant_id
          → str_eq r.key key ≡ true
          → is_published r.status ≡ true
          → key_of r ≢ k)
        k s a all gone.1 t ((eq_iff a.key key).1 (ke ∙ same)) p (find_key-key k s a gone.1))

pub publish-IsAlone :
    (x : Rule) (tenant : String) (s : List Rule)
    → x.tenant_id ≡ tenant
    → IsAlone (record x { status = published }) (retire_all (siblings tenant x s) s)
unfolding IsAlone
publish-IsAlone x tenant s same k a e t ke p =
    let gone = retire_all-published k (siblings tenant x s) s a e p in
    let others =
      λ (r : Rule). str_eq r.key x.key && is_published r.status && not (str_eq r.id x.id) in
    let missed = list-misses k tenant others s a gone.1 gone.0 (t ∙ same) in
    let id : a.id ≡ x.id = ground (arith, missed, eq_iff a.key x.key, eq_iff a.id x.id) in
    rw (← t, ← id) (find_key-key k s a gone.1)
