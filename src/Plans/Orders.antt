-- ===== src/Plans/Orders.antt =====
-- What the search for cycles (apps/agentcore/src/workflow/validate.ts, `detectStaticCycle`) finds: what
-- it is done with is in an order in which each node stands before its neighbours, and a path that it
-- returns is a cycle.
use complete.Base.{
  inl, inr, ℕ, zero, suc, true, List, [], ◌∷◌, ◌++◌, ◌≡◌, refl, arith, eq_iff, eq_refl, Bool-cases,
  All, All-map, ap,
}
use complete.Plans.Cycles.{
  Node, agent, workflow, same_node, member, Search, found, clear, exhausted, and_clear, search_all,
  dfs,
}

pub same_node-≡ : (n m : Node) → same_node n m ≡ true → n ≡ m
same_node-≡ (agent i) (agent j) e = ap agent ((eq_iff i j).0 e)
same_node-≡ (workflow i) (workflow j) e = ap workflow ((eq_iff i j).0 e)
same_node-≡ (agent i) (workflow j) e = absurd (cc)
same_node-≡ (workflow i) (agent j) e = absurd (cc)

pub same_node_refl : (n : Node) → same_node n n ≡ true
same_node_refl (agent i) = eq_refl i
same_node_refl (workflow i) = eq_refl i

pub IsWithin : List Node → List Node → Type 0
IsWithin ns ms = (n : Node) → member n ns ≡ true → member n ms ≡ true

member-head : (n : Node) (ns : List Node) → member n (n ∷ ns) ≡ true
member-head n ns = rw (same_node_refl n) refl

member-tail : (n m : Node) (ns : List Node) → member n ns ≡ true → member n (m ∷ ns) ≡ true
member-tail n m ns e = ground arith

pub members : (ns : List Node) → All (λ n. member n ns ≡ true) ns
members [] = tt
members (n ∷ ns) = (member-head n ns, All-map _ _ (λ m e. member-tail m n ns e) ns (members ns))

module _ (next : Node → List Node) where
  -- The neighbours of each node stand behind it.
  abbrev pub IsOrder : List Node → Type 0
  IsOrder [] = Unit
  IsOrder (n ∷ ns) = All (λ m. member m ns ≡ true) (next n) × IsOrder ns

  -- A search that comes to no cycle has the nodes `ns` done, and keeps what was done.
  abbrev pub Orders : List Node → List Node → Search → Type 0
  Orders before ns (clear done) =
      IsOrder done × (IsWithin before done × All (λ n. member n done ≡ true) ns)
  Orders before ns (found path) = Unit
  Orders before ns exhausted = Unit

  and_clear-Orders :
      (before ns ns' : List Node) (s : Search) (k : List Node → Search)
      → Orders before ns s
      → ((done : List Node)
          → IsOrder done
          → IsWithin before done
          → All (λ n. member n done ≡ true) ns
          → Orders before ns' (k done))
      → Orders before ns' (and_clear s k)
  and_clear-Orders before ns ns' (clear done) k h next' = next' done h.0 h.1.0 h.1.1
  and_clear-Orders before ns ns' (found path) k h next' = tt
  and_clear-Orders before ns ns' exhausted k h next' = tt

  widen :
      (before done n : List Node) (m : Node) (ns : List Node) (s : Search)
      → IsWithin before done
      → member m done ≡ true
      → Orders done ns s
      → Orders before (m ∷ ns) s
  unfolding IsWithin
  widen before done n m ns (clear done') sub e h =
      (h.0, ((λ l q. h.1.0 l (sub l q)), (h.1.0 m e, h.1.1)))
  widen before done n m ns (found path) sub e h = tt
  widen before done n m ns exhausted sub e h = tt

  search_all-Orders :
      (go : List Node → Node → Search)
      → ((done : List Node) (n : Node) → IsOrder done → Orders done (n ∷ []) (go done n))
      → (done ns : List Node) → IsOrder done
      → Orders done ns (search_all go done ns)
  unfolding IsWithin
  search_all-Orders go h done [] o = (o, ((λ n e. e), tt))
  search_all-Orders go h done (n ∷ ns) o =
      and_clear-Orders done (n ∷ []) (n ∷ ns) (go done n) (λ done'. search_all go done' ns)
        (h done n o)
        (λ done' o' sub here.
          widen done done' [] n ns (search_all go done' ns) sub here.0
            (search_all-Orders go h done' ns o'))

  pub dfs-Orders :
      (f : ℕ) (visiting done : List Node) (node : Node)
      → IsOrder done
      → Orders done (node ∷ []) (dfs next f visiting done node)
  unfolding dfs IsWithin
  dfs-Orders zero visiting done node o = tt
  dfs-Orders (suc f) visiting done node o = elim (Bool-cases (member node visiting)) [
    | inl e ↦ rw e tt
    | inr e ↦ elim (Bool-cases (member node done)) [
      | inl e' ↦ rw (e, e') (o, ((λ n q. q), (e', tt)))
      | inr e' ↦
          rw (e, e')
            (and_clear-Orders done (next node) (node ∷ [])
              (search_all (dfs next f (visiting ++ node ∷ [])) done (next node))
              (λ done'. clear (node ∷ done'))
              (search_all-Orders (dfs next f (visiting ++ node ∷ []))
                (λ d n od. dfs-Orders f (visiting ++ node ∷ []) d n od) done (next node) o)
              (λ done' o' sub all. (
                (all, o'),
                ((λ n q. member-tail n node done' (sub n q)), (member-head node done', tt)),
              )))
    ]
  ]
