-- ===== src/Outbox/Order.antt =====
-- Order of delivery within an aggregate (apps/datacore/src/outbox.ts, `processOnce`).
use mathlib.Core.Bool.{false≢true}
use complete.Base.{
  ℕ, ◌+◌, ◌≤◌, ◌<◌, String, Bool, true, false, List, [], ◌∷◌, none, some, ◌≡◌, ◌≢◌, inl, inr, refl,
  sym, ◌∙◌, ap, subst, arith, if◌then◌else◌, filter, any, All, All-map, All-filter, All-of_filter,
  All-filter_test, Bool-cases, str_eq, str_eq-false, eq_iff, eq_refl, ltb,
}
use complete.Store.{key_of, find_key, list}
use complete.Store.Laws.{find_key-put, All-of_list, All-list, All-find_key}
use complete.Outbox.{
  EventStatus, OutboxEvent, event_entity, Webhook, webhook_entity, FetchResult, is_pending,
  in_aggregate, wants, call_targets, retry, deliver, backoff_at, backoff_ms, lowest, heads, Counts,
  count_delivery, process_heads, process_once,
}

module _ {P : Type 0} where
  -- A property that holds of the candidates holds of the head that is chosen.
  lowest-All {κ} :
      (Q : OutboxEvent P → Type κ) (e : OutboxEvent P) (xs : List (OutboxEvent P))
      → Q e
      → All Q xs
      → Q (lowest e xs)
  unfolding lowest
  lowest-All Q e [] q h = q
  lowest-All Q e (x ∷ xs) q h = elim (Bool-cases (ltb x.seq e.seq)) [
    | inl b ↦ rw b (lowest-All Q x xs h.0 h.1)
    | inr b ↦ rw b (lowest-All Q e xs q h.1)
  ]

  lowest-le :
      (e : OutboxEvent P) (xs : List (OutboxEvent P))
      → ((lowest e xs).seq ≤ e.seq) × All (λ x. (lowest e xs).seq ≤ x.seq) xs
  unfolding lowest
  lowest-le e [] = (omega arith, tt)
  lowest-le e (x ∷ xs) =
      let chosen = λ (b : Bool). lowest (if b then x else e) xs in
      let Least = λ (l : OutboxEvent P). (l.seq ≤ e.seq) × All (λ y. l.seq ≤ y.seq) (x ∷ xs) in
      elim (Bool-cases (ltb x.seq e.seq)) [
        | inl b ↦
            let h = lowest-le x xs in
            subst Least (sym (ap chosen b)) (ground (arith, h.0, b), (h.0, h.1))
        | inr b ↦
            let h = lowest-le e xs in
            subst Least (sym (ap chosen b)) (h.0, (ground (arith, h.0, b), h.1))
      ]

  -- The lowest of its aggregate in a list.
  abbrev IsFirst : List (OutboxEvent P) → OutboxEvent P → Type 0
  IsFirst es h = All (λ x. in_aggregate h.aggregate_key x ≡ true → h.seq ≤ x.seq) es

  abbrev is_seen : List String → OutboxEvent P → Bool
  is_seen seen e = any (λ k. str_eq k e.aggregate_key) seen

  -- Events of which one aggregate has been seen and the other has not differ in it.
  apart :
      (seen : List String) (h e : OutboxEvent P)
      → is_seen seen h ≡ false
      → is_seen seen e ≡ true
      → in_aggregate h.aggregate_key e ≡ true
      → ⊥
  apart seen h e unseen seen' same =
      let one = (eq_iff e.aggregate_key h.aggregate_key).0 same in
      let at = λ (k : String). any (λ k'. str_eq k' k) seen in
      false≢true (sym unseen ∙ ap at (sym one) ∙ seen')

  lowest-IsFirst :
      (e : OutboxEvent P) (es : List (OutboxEvent P))
      → let h = lowest e (filter (in_aggregate e.aggregate_key) es) in
        (h.aggregate_key ≡ e.aggregate_key) × IsFirst (e ∷ es) h
  lowest-IsFirst e es =
      let mine = in_aggregate e.aggregate_key in
      let fs = filter mine es in
      let h = lowest e fs in
      let tests =
        lowest-All (λ x. mine x ≡ true) e fs (eq_refl e.aggregate_key) (All-filter_test mine es) in
      let same : h.aggregate_key ≡ e.aggregate_key =
        (eq_iff h.aggregate_key e.aggregate_key).0 tests in
      let (le, les) = lowest-le e fs in
      let rest =
        subst (λ k. All (λ x. in_aggregate k x ≡ true → h.seq ≤ x.seq) es) (sym same)
          (All-of_filter (λ x. h.seq ≤ x.seq) mine es les) in
      (same, ((λ _. le), rest))

  -- What `heads` chooses: a candidate, the lowest of its aggregate, of an aggregate not yet seen.
  abbrev IsHead :
      (OutboxEvent P → Type 0) → List String → List (OutboxEvent P) → OutboxEvent P → Type 0
  IsHead Q seen es h = Q h × IsFirst es h × (is_seen seen h ≡ false)

  heads-IsHead :
      (Q : OutboxEvent P → Type 0) (seen : List String) (es : List (OutboxEvent P))
      → All Q es
      → All (IsHead Q seen es) (heads seen es)
  unfolding heads
  heads-IsHead Q seen [] q = tt
  heads-IsHead Q seen (e ∷ es) q = elim (Bool-cases (is_seen seen e)) [
    | inl old ↦ rw old (
        All-map _ (IsHead Q seen (e ∷ es))
          (λ h g. (g.0, ((λ same. absurd (apart seen h e g.2 old same)), g.1), g.2)) (heads seen es)
          (heads-IsHead Q seen es q.1))
    | inr fresh ↦
        let fs = filter (in_aggregate e.aggregate_key) es in
        let (same, first) = lowest-IsFirst e es in
        let one = lowest-All Q e fs q.0 (All-filter Q (in_aggregate e.aggregate_key) es q.1) in
        let at = λ (k : String). any (λ k'. str_eq k' k) seen in
        rw fresh (
          (one, first, ap at same ∙ fresh),
          All-map _ (IsHead Q seen (e ∷ es)) later (heads (e.aggregate_key ∷ seen) es)
              (heads-IsHead Q (e.aggregate_key ∷ seen) es q.1),
        )
  ]
    where
      later :
          (h : OutboxEvent P) → IsHead Q (e.aggregate_key ∷ seen) es h → IsHead Q seen (e ∷ es) h
      later h g =
          let both : (str_eq e.aggregate_key h.aggregate_key ≡ false) × (is_seen seen h ≡ false) =
            ground (arith, g.2) in
          (g.0, ((λ same. absurd (false≢true (sym both.0 ∙ same))), g.1), both.1)

  -- A store in which each record is the one that is found at its key: any that `put` has built.
  abbrev pub IsStore : List (OutboxEvent P) → Type 0
  IsStore s = All (λ x. find_key (key_of x) s ≡ some x) s

  -- An event behind a pending one of its aggregate is no head of the pending list.
  blocked-ne :
      (tenant k k' : String) (e first : OutboxEvent P) (s : List (OutboxEvent P))
      → find_key k s ≡ some e
      → find_key k' s ≡ some first
      → (first.tenant_id ≡ tenant) × (first.status ≡ EventStatus.pending)
      → first.aggregate_key ≡ e.aggregate_key
      → first.seq < e.seq
      → (h : OutboxEvent P)
      → IsHead (λ x. find_key (key_of x) s ≡ some x) [] (list tenant (λ x. is_pending x.status) s) h
      → key_of h ≢ k
  blocked-ne tenant k k' e first s found found' (ours, open_) same lt h (at, least, _) at_k =
      let is_e : some h ≡ some e = sym at ∙ ap (λ j. find_key j s) at_k ∙ found in
      let one : h ≡ e = cc in
      let all_least =
        All-of_list (λ x. in_aggregate h.aggregate_key x ≡ true → h.seq ≤ x.seq) tenant
          (λ x. is_pending x.status) s least in
      let agg : first.aggregate_key ≡ h.aggregate_key =
        same ∙ ap (λ (x : OutboxEvent P). x.aggregate_key) (sym one) in
      let le =
        All-find_key _ k' s first all_least found' ours (ap is_pending open_)
          ((eq_iff first.aggregate_key h.aggregate_key).1 agg) in
      let seqs = ap (λ (x : OutboxEvent P). x.seq) one in absurd (omega arith)

  module _ (fetch : Webhook → OutboxEvent P → FetchResult) where
    -- A delivery writes only the event that it delivers.
    deliver-other :
        (k : String) (evt : OutboxEvent P) (hooks : List Webhook) (at : ℕ)
        (s : List (OutboxEvent P))
        → key_of evt ≢ k
        → find_key k (deliver fetch evt hooks at s).1 ≡ find_key k s
    unfolding deliver retry
    deliver-other k evt hooks at s ne =
        let other = str_eq-false (key_of evt) k ne in
        let error = (call_targets fetch evt (filter (wants evt) hooks) (true, none)).1 in
        let gone = record evt { status = EventStatus.delivered } in
        let done = record evt { status = EventStatus.delivered; attempts = evt.attempts + 1 } in
        let buried = record evt {
          attempts = evt.attempts + 1;
          status = EventStatus.dead;
          last_error = error;
        } in
        let waiting = record evt {
          attempts = evt.attempts + 1;
          status = EventStatus.pending;
          last_error = error;
          next_attempt_at = at + backoff_at 0 backoff_ms evt.attempts;
        } in
        ground (
          arith,
          other,
          find_key-put k gone s,
          find_key-put k done s,
          find_key-put k buried s,
          find_key-put k waiting s,
        )

    process_heads-other :
        (k : String) (hooks : List Webhook) (now : ℕ) (done_at : OutboxEvent P → ℕ)
        (hs : List (OutboxEvent P)) (c : Counts) (s : List (OutboxEvent P))
        → All (λ h. key_of h ≢ k) hs
        → find_key k (process_heads fetch hooks now done_at hs c s).1 ≡ find_key k s
    unfolding process_heads
    process_heads-other k hooks now done_at [] c s h = refl
    process_heads-other k hooks now done_at (head ∷ rest) c s h =
        let (outcome, s') = deliver fetch head hooks (done_at head) s in
        ground (
          arith,
          deliver-other k head hooks (done_at head) s h.0,
          process_heads-other k hooks now done_at rest c s h.1,
          process_heads-other k hooks now done_at rest (count_delivery outcome c) s' h.1,
        )

    -- Head of line: an event behind a pending event of its aggregate is not touched by a pass,
    -- whatever the webhooks answer and whether or not the one before it is due.
    pub process_once-blocked :
        (tenant : String) (webhooks : List Webhook) (now : ℕ) (done_at : OutboxEvent P → ℕ)
        (k k' : String) (e first : OutboxEvent P) (s : List (OutboxEvent P))
        → IsStore s
        → find_key k s ≡ some e
        → find_key k' s ≡ some first
        → (first.tenant_id ≡ tenant) × (first.status ≡ EventStatus.pending)
        → first.aggregate_key ≡ e.aggregate_key
        → first.seq < e.seq
        → find_key k (process_once fetch tenant webhooks now done_at s).1 ≡ some e
    unfolding process_once
    process_once-blocked tenant webhooks now done_at k k' e first s stored found found'
          (ours, open_) same lt =
        let due = list tenant (λ x. is_pending x.status) s in
        let hooks = list tenant (λ w. w.active) webhooks in
        let Q = λ (x : OutboxEvent P). find_key (key_of x) s ≡ some x in
        let chosen =
          heads-IsHead Q [] due (
            All-map _ Q (λ x h. h.0) due (All-list Q tenant (λ x. is_pending x.status) s stored)) in
        let not_e = blocked-ne tenant k k' e first s found found' (ours, open_) same lt in
        process_heads-other k hooks now done_at (heads [] due) _ s
          (All-map _ (λ h. key_of h ≢ k) not_e (heads [] due) chosen)
        ∙ found
