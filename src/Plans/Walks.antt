-- ===== src/Plans/Walks.antt =====
-- Where the search for cycles (apps/agentcore/src/workflow/validate.ts, `detectStaticCycle`) finds none,
-- there is none; and a path that it returns is one.
use complete.Base.{
  inl, inr, ◌⊎◌, ℕ, zero, suc, true, List, [], ◌∷◌, ◌++◌, ◌≡◌, refl, arith, length, Bool-cases, All,
  All-map, sym, subst,
}
use complete.Plans.Cycles.{
  Node, same_node, member, Search, found, clear, exhausted, and_clear, search_all, from_node, dfs,
  Definitions, neighbors, detect_static_cycle, defined,
}
use complete.Plans.Orders.{same_node-≡, members, IsOrder, Orders, dfs-Orders}

pub data Walk (next : Node → List Node) : Node → Node → Type 0 where
  one : {x y : Node} → member y (next x) ≡ true → Walk next x y
  more : {x y z : Node} → member y (next x) ≡ true → Walk next y z → Walk next x z

All-member : (P : Node → Type 0) (x : Node) (ns : List Node) → All P ns → member x ns ≡ true → P x
All-member P x [] h e = absurd (cc)
All-member P x (n ∷ ns) h e = elim (Bool-cases (same_node x n)) [
  | inl same ↦ subst P (sym (same_node-≡ x n same)) h.0
  | inr other ↦ All-member P x ns h.1 (rw other at e)
]

module _ (next : Node → List Node) where
  order_next :
      (x y : Node) (ns : List Node)
      → IsOrder next ns
      → member x ns ≡ true
      → member y (next x) ≡ true
      → member y ns ≡ true
  order_next x y [] o e step = absurd (cc)
  order_next x y (n ∷ ns) o e step = elim (Bool-cases (same_node x n)) [
    | inl same ↦
        let step' : member y (next n) ≡ true = rw (← same_node-≡ x n same) step in
        let there : member y ns ≡ true =
          All-member (λ m. member m ns ≡ true) y (next n) o.0 step' in
        ground arith
    | inr other ↦ let there = order_next x y ns o.1 (rw other at e) step in ground arith
  ]

  order-Walk :
      (x y : Node) (ns : List Node)
      → IsOrder next ns
      → member x ns ≡ true
      → Walk next x y
      → member y ns ≡ true
  order-Walk x y ns o e (one step) = order_next x y ns o e step
  order-Walk x z ns o e (more {y = y} step w) = order-Walk y z ns o (order_next x y ns o e step) w

  behind :
      (n z : Node) (ns : List Node) → IsOrder next (n ∷ ns) → Walk next n z → member z ns ≡ true
  behind n z ns o (one step) = All-member (λ m. member m ns ≡ true) z (next n) o.0 step
  behind n z ns o (more {y = y} step w) =
      order-Walk y z ns o.1 (All-member (λ m. member m ns ≡ true) y (next n) o.0 step) w

  -- No walk in an order comes back.
  order_acyclic :
      (x : Node) (ns : List Node) → IsOrder next ns → member x ns ≡ true → Walk next x x → ⊥
  order_acyclic x [] o e w = absurd (cc)
  order_acyclic x (n ∷ ns) o e w = elim (Bool-cases (same_node x n)) [
    | inl same ↦
        let x_n : x ≡ n = same_node-≡ x n same in
        let w' : Walk next n n = subst (λ m. Walk next m m) x_n w in
        order_acyclic n ns o.1 (behind n n ns o w') w'
    | inr other ↦ order_acyclic x ns o.1 (rw other at e) w
  ]

  -- Each node of a path is a neighbour of the one before.
  abbrev pub IsPathFrom : Node → List Node → Type 0
  IsPathFrom x [] = Unit
  IsPathFrom x (y ∷ ys) = (member y (next x) ≡ true) × IsPathFrom y ys

  abbrev pub IsPath : List Node → Type 0
  IsPath [] = Unit
  IsPath (x ∷ xs) = IsPathFrom x xs

  -- A path that comes back to where it starts.
  abbrev pub IsCycle : List Node → Type 0
  IsCycle p = (x : Node) × (ms : List Node) × (p ≡ x ∷ (ms ++ x ∷ [])) × IsPath p

  abbrev Cycles : Search → Type 0
  Cycles (found p) = IsCycle p
  Cycles (clear done) = Unit
  Cycles exhausted = Unit

  path-snoc :
      (x : Node) (xs : List Node) (n m : Node)
      → IsPathFrom x (xs ++ n ∷ [])
      → member m (next n) ≡ true
      → IsPathFrom x ((xs ++ n ∷ []) ++ m ∷ [])
  path-snoc x [] n m h e = (h.0, (e, tt))
  path-snoc x (y ∷ xs) n m h e = (h.0, path-snoc y xs n m h.1 e)

  IsPath-snoc :
      (xs : List Node) (n m : Node)
      → IsPath (xs ++ n ∷ [])
      → member m (next n) ≡ true
      → IsPath ((xs ++ n ∷ []) ++ m ∷ [])
  IsPath-snoc [] n m h e = (e, tt)
  IsPath-snoc (x ∷ xs) n m h e = path-snoc x xs n m h e

  IsPath-tail : (x : Node) (xs : List Node) → IsPathFrom x xs → IsPath xs
  IsPath-tail x [] h = tt
  IsPath-tail x (y ∷ xs) h = h.1

  from_node-IsCycle :
      (n : Node) (visiting : List Node)
      → IsPath (visiting ++ n ∷ [])
      → member n visiting ≡ true
      → IsCycle (from_node n visiting ++ n ∷ [])
  unfolding from_node
  from_node-IsCycle n [] h e = absurd (cc)
  from_node-IsCycle n (m ∷ ms) h e = elim (Bool-cases (same_node n m)) [
    | inl same ↦ rw same (m, ms, rw (same_node-≡ n m same) refl, h)
    | inr other ↦ rw other (from_node-IsCycle n ms (IsPath-tail m (ms ++ n ∷ []) h) (rw other at e))
  ]

  and_clear-Cycles :
      (s : Search) (k : List Node → Search)
      → Cycles s
      → ((done : List Node) → Cycles (k done))
      → Cycles (and_clear s k)
  and_clear-Cycles (clear done) k h next' = next' done
  and_clear-Cycles (found p) k h next' = h
  and_clear-Cycles exhausted k h next' = tt

  search_all-Cycles :
      (go : List Node → Node → Search) (ns : List Node)
      → All (λ n. (done : List Node) → Cycles (go done n)) ns
      → (done : List Node) → Cycles (search_all go done ns)
  search_all-Cycles go [] h done = tt
  search_all-Cycles go (n ∷ ns) h done =
      and_clear-Cycles (go done n) (λ done'. search_all go done' ns) (h.0 done)
        (λ done'. search_all-Cycles go ns h.1 done')

  dfs-Cycles :
      (f : ℕ) (visiting done : List Node) (node : Node)
      → IsPath (visiting ++ node ∷ [])
      → Cycles (dfs next f visiting done node)
  unfolding dfs
  dfs-Cycles zero visiting done node h = tt
  dfs-Cycles (suc f) visiting done node h = elim (Bool-cases (member node visiting)) [
    | inl e ↦ rw e (from_node-IsCycle node visiting h e)
    | inr e ↦ elim (Bool-cases (member node done)) [
      | inl e' ↦ rw (e, e') tt
      | inr e' ↦
          rw (e, e')
            (and_clear-Cycles (search_all (dfs next f (visiting ++ node ∷ [])) done (next node))
              (λ done'. clear (node ∷ done'))
              (search_all-Cycles (dfs next f (visiting ++ node ∷ [])) (next node)
                (All-map (λ n. member n (next node) ≡ true)
                  (λ n. (d : List Node) → Cycles (dfs next f (visiting ++ node ∷ []) d n))
                  (λ n q d.
                    dfs-Cycles f (visiting ++ node ∷ []) d n (IsPath-snoc visiting node n h q))
                  (next node) (members (next node)))
                done)
              (λ done'. tt))
    ]
  ]

-- A path that is returned is a cycle: each node is a neighbour of the one before, and the last is the
-- first.
pub found-IsCycle :
    (ds : Definitions) (start : Node) (p : List Node)
    → detect_static_cycle ds start ≡ found p
    → IsCycle (neighbors ds) p
unfolding detect_static_cycle
found-IsCycle ds start p e =
    subst (λ s. Cycles (neighbors ds) s) e
      (dfs-Cycles (neighbors ds) (suc (length (defined ds))) [] [] start tt)

-- Where no path is returned, no walk from the start leads to a cycle: neither the start nor a node that
-- can be reached from it can be reached from itself.
pub clear_acyclic :
    (ds : Definitions) (start x : Node) (done : List Node)
    → detect_static_cycle ds start ≡ clear done
    → (start ≡ x) ⊎ Walk (neighbors ds) start x
    → ¬ Walk (neighbors ds) x x
unfolding detect_static_cycle
clear_acyclic ds start x done e reach w =
    let o : Orders (neighbors ds) [] (start ∷ []) (clear done) =
      subst (λ s. Orders (neighbors ds) [] (start ∷ []) s) e
        (dfs-Orders (neighbors ds) (suc (length (defined ds))) [] [] start tt) in
    elim reach [
      | inl same ↦
          order_acyclic (neighbors ds) x done o.0 (subst (λ n. member n done ≡ true) same o.1.1.0) w
      | inr walk ↦
          order_acyclic (neighbors ds) x done o.0
            (order-Walk (neighbors ds) start x done o.0 o.1.1.0 walk) w
    ]
