-- ===== src/Plans/Ends.antt =====
-- The search for cycles (apps/agentcore/src/workflow/validate.ts, `detectStaticCycle`) ends.
use complete.Base.{
  inl, inr, ◌⊎◌, ℕ, zero, suc, ◌≤◌, ◌<◌, String, Bool, true, false, not, ◌||◌, List, [], ◌∷◌, ◌++◌,
  ◌≡◌, ◌≢◌, refl, arith, filter, length, length-filter, map, Option, none, some, find?, str_eq,
  eq_iff, Bool-cases,
}
use complete.Plans.Cycles.{
  Node, agent, workflow, same_node, member, Search, found, clear, exhausted, and_clear, search_all,
  dfs, Definitions, neighbors, detect_static_cycle, defined, pending_first, agent_node,
  workflow_node, tools_nodes, steps_nodes, AgentDefinition, WorkflowDefinition,
}
use complete.Plans.Orders.{same_node-≡, same_node_refl}

-- The nodes of a list that are not being visited.
abbrev fresh : List Node → List Node → ℕ
fresh nodes visiting = length (filter (λ n. not (member n visiting)) nodes)

member-snoc :
    (n m : Node) (ns : List Node) → member n (ns ++ m ∷ []) ≡ (member n ns || same_node n m)
member-snoc n m [] = ground arith
member-snoc n m (l ∷ ns) = let ih = member-snoc n m ns in ground arith

fresh-le :
    (nodes visiting : List Node) (n : Node)
    → fresh nodes (visiting ++ n ∷ []) ≤ fresh nodes visiting
fresh-le [] visiting n = omega arith
fresh-le (m ∷ nodes) visiting n =
    let ih = fresh-le nodes visiting n in
    elim (Bool-cases (member m visiting)) [
      | inl e ↦ rw (member-snoc m n visiting, e) ih
      | inr e ↦ elim (Bool-cases (same_node m n)) [
        | inl e' ↦ rw (member-snoc m n visiting, e, e') (omega (arith, ih))
        | inr e' ↦ rw (member-snoc m n visiting, e, e') (omega (arith, ih))
      ]
    ]

fresh-lt :
    (nodes visiting : List Node) (n : Node)
    → member n nodes ≡ true
    → member n visiting ≡ false
    → fresh nodes (visiting ++ n ∷ []) < fresh nodes visiting
fresh-lt [] visiting n e e' = absurd (cc)
fresh-lt (m ∷ nodes) visiting n e e' = elim (Bool-cases (same_node n m)) [
  | inl same ↦
      let le = fresh-le nodes visiting n in
      let n_m = same_node-≡ n m same in
      let gone : member m visiting ≡ false = rw (← n_m) e' in
      let now : same_node m n ≡ true = rw n_m (same_node_refl m) in
      rw (member-snoc m n visiting, gone, now) (omega (arith, le))
  | inr other ↦
      let ih = fresh-lt nodes visiting n (rw other at e) e' in
      elim (Bool-cases (member m visiting)) [
        | inl h ↦ rw (member-snoc m n visiting, h) ih
        | inr h ↦ elim (Bool-cases (same_node m n)) [
          | inl h' ↦ rw (member-snoc m n visiting, h, h') (omega (arith, ih))
          | inr h' ↦ rw (member-snoc m n visiting, h, h') (omega (arith, ih))
        ]
      ]
]

abbrev is_final : Search → Bool
is_final exhausted = false
is_final _ = true

and_clear-is_final :
    (s : Search) (k : List Node → Search)
    → is_final s ≡ true
    → ((done : List Node) → is_final (k done) ≡ true)
    → is_final (and_clear s k) ≡ true
and_clear-is_final (clear done) k e h = h done
and_clear-is_final (found p) k e h = refl
and_clear-is_final exhausted k e h = e

search_all-is_final :
    (go : List Node → Node → Search)
    → ((done : List Node) (n : Node) → is_final (go done n) ≡ true)
    → (ns done : List Node) → is_final (search_all go done ns) ≡ true
search_all-is_final go h [] done = refl
search_all-is_final go h (n ∷ ns) done =
    and_clear-is_final (go done n) (λ done'. search_all go done' ns) (h done n)
      (λ done'. search_all-is_final go h ns done')

List-cases : (ns : List Node) → (ns ≡ []) ⊎ ((n : Node) × (ms : List Node) × (ns ≡ n ∷ ms))
List-cases [] = inl refl
List-cases (n ∷ ns) = inr (n, ns, refl)

module _ (next : Node → List Node) (nodes : List Node)
    (defines : (n m : Node) (ms : List Node) → next n ≡ m ∷ ms → member n nodes ≡ true) where
  dfs-is_final :
      (f : ℕ) (visiting done : List Node) (node : Node)
      → fresh nodes visiting < f
      → is_final (dfs next f visiting done node) ≡ true
  unfolding dfs
  dfs-is_final zero visiting done node lt = absurd (omega arith)
  dfs-is_final (suc f) visiting done node lt = elim (Bool-cases (member node visiting)) [
    | inl e ↦ rw e refl
    | inr e ↦ elim (Bool-cases (member node done)) [
      | inl e' ↦ rw (e, e') refl
      | inr e' ↦ elim (List-cases (next node)) [
        | inl none' ↦ rw (e, e', none') refl
        | inr (m, ms, some') ↦
            let fewer = fresh-lt nodes visiting node (defines node m ms some') e in
            rw (e, e')
              (and_clear-is_final (search_all (dfs next f (visiting ++ node ∷ [])) done (next node))
                (λ done'. clear (node ∷ done'))
                (search_all-is_final (dfs next f (visiting ++ node ∷ []))
                  (λ d n. dfs-is_final f (visiting ++ node ∷ []) d n (omega (arith, fewer)))
                  (next node) done)
                (λ done'. refl))
      ]
    ]
  ]

member-append : (n : Node) (ns ms : List Node) → member n (ns ++ ms) ≡ (member n ns || member n ms)
member-append n [] ms = refl
member-append n (l ∷ ns) ms = let ih = member-append n ns ms in ground arith

same_text : (i j : String) → str_eq i j ≡ true → str_eq j i ≡ true
same_text i j e = ground (arith, eq_iff i j, eq_iff j i)

stored_agent :
    (id : String) (l : List AgentDefinition) (m : Node) (ms : List Node)
    → tools_nodes (find? (λ a. str_eq a.id id) l) ≡ m ∷ ms
    → member (agent id) (map (λ a. agent a.id) l) ≡ true
stored_agent id [] m ms e = absurd (cc)
stored_agent id (a ∷ l) m ms e = elim (Bool-cases (str_eq a.id id)) [
  | inl h ↦ rw (same_text a.id id h) refl
  | inr h ↦ let ih = stored_agent id l m ms (rw h at e) in ground arith
]

stored_workflow :
    (id : String) (l : List WorkflowDefinition) (m : Node) (ms : List Node)
    → steps_nodes (find? (λ w. str_eq w.id id) l) ≡ m ∷ ms
    → member (workflow id) (map (λ w. workflow w.id) l) ≡ true
stored_workflow id [] m ms e = absurd (cc)
stored_workflow id (w ∷ l) m ms e = elim (Bool-cases (str_eq w.id id)) [
  | inl h ↦ rw (same_text w.id id h) refl
  | inr h ↦ let ih = stored_workflow id l m ms (rw h at e) in ground arith
]

agent-defined :
    (id : String) (pending : Option AgentDefinition) (l : List AgentDefinition) (m : Node)
    (ms : List Node)
    → tools_nodes (pending_first (λ a. str_eq a.id id) pending l) ≡ m ∷ ms
    → (member (agent id) (agent_node pending) || member (agent id) (map (λ a. agent a.id) l)) ≡ true
agent-defined id none l m ms e = stored_agent id l m ms e
agent-defined id (some a) l m ms e = elim (Bool-cases (str_eq a.id id)) [
  | inl h ↦ rw (same_text a.id id h) refl
  | inr h ↦ let ih = stored_agent id l m ms (rw h at e) in ground arith
]

workflow-defined :
    (id : String) (pending : Option WorkflowDefinition) (l : List WorkflowDefinition) (m : Node)
    (ms : List Node)
    → steps_nodes (pending_first (λ w. str_eq w.id id) pending l) ≡ m ∷ ms
    → (member (workflow id) (workflow_node pending)
        || member (workflow id) (map (λ w. workflow w.id) l))
      ≡ true
workflow-defined id none l m ms e = stored_workflow id l m ms e
workflow-defined id (some w) l m ms e = elim (Bool-cases (str_eq w.id id)) [
  | inl h ↦ rw (same_text w.id id h) refl
  | inr h ↦ let ih = stored_workflow id l m ms (rw h at e) in ground arith
]

or_left : (a b : Bool) → a ≡ true → (a || b) ≡ true
or_left true b e = refl
or_left false b e = absurd (cc)

or_right : (a b : Bool) → b ≡ true → (a || b) ≡ true
or_right true b e = refl
or_right false b e = e

neighbors-defined :
    (ds : Definitions) (n m : Node) (ms : List Node)
    → neighbors ds n ≡ m ∷ ms
    → member n (defined ds) ≡ true
unfolding neighbors
neighbors-defined ds (agent id) m ms e =
    let A = agent_node ds.pending_agent in
    let As = map (λ (a : AgentDefinition). agent a.id) ds.agents in
    rw
      (member-append (agent id) (A ++ As)
        (workflow_node ds.pending_workflow ++ map (λ w. workflow w.id) ds.workflows))
      (or_left (member (agent id) (A ++ As)) _
        (rw (member-append (agent id) A As) (agent-defined id ds.pending_agent ds.agents m ms e)))
neighbors-defined ds (workflow id) m ms e =
    let W = workflow_node ds.pending_workflow in
    let Ws = map (λ (w : WorkflowDefinition). workflow w.id) ds.workflows in
    rw
      (member-append (workflow id) (agent_node ds.pending_agent ++ map (λ a. agent a.id) ds.agents)
        (W ++ Ws))
      (or_right _ (member (workflow id) (W ++ Ws)) (
        rw (member-append (workflow id) W Ws)
          (workflow-defined id ds.pending_workflow ds.workflows m ms e)))

-- The search ends, with a path or without, and its fuel is enough.
pub detect_total : (ds : Definitions) (start : Node) → detect_static_cycle ds start ≢ exhausted
unfolding detect_static_cycle
detect_total ds start e =
    let final =
      dfs-is_final (neighbors ds) (defined ds) (neighbors-defined ds) (suc (length (defined ds))) []
        [] start (omega (arith, length-filter (λ n. true) (defined ds))) in
    let e' = rw e at final in cc
