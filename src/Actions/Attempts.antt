-- ===== src/Actions/Attempts.antt =====
-- How often the write-back adapter is called (apps/datacore/src/actions.ts, the loop of `execute`).
use complete.Base.{
  ℕ, suc, ◌+◌, ◌≤◌, ◌<◌, String, Bool, true, false, List, [], ◌∷◌, Option, none, some, ◌≡◌, ◌⊎◌,
  inl, inr, refl, arith, length,
}
use complete.Actions.Drafts.{ActionDraft}
use complete.Actions.World.{Executed, done, refused, crashed}
use complete.Actions.Execution.{attempt_from}

abbrev pub is_done : Executed → Bool
is_done (done target) = true
is_done _ = false

Executed-cases :
    (x : Executed)
    → ((t : Option String) × (x ≡ done t))
      ⊎ ((x ≡ refused none)
          ⊎ (((m : String) × (x ≡ refused (some m))) ⊎ ((m : String) × (x ≡ crashed m))))
Executed-cases (done t) = inl (t, refl)
Executed-cases (refused none) = inr (inl refl)
Executed-cases (refused (some m)) = inr (inr (inl (m, refl)))
Executed-cases (crashed m) = inr (inr (inr (m, refl)))

module _ {N : Type 0} (executor : ℕ → ActionDraft N → Executed) (d : ActionDraft N) where
  -- What the loop comes to, from `n` calls on with `more` left: the last call is the first that is
  -- done, or there were `more` calls and none was.
  abbrev pub IsFirstDone : ℕ → ℕ → Bool × Option String × Option String × ℕ → Type 0
  IsFirstDone n more (b, target, last, attempts) =
      ((b ≡ true)
        × (executor attempts d ≡ done target)
        × (n < attempts)
        × (attempts ≤ n + more)
        × ((k : ℕ) → n < k → k < attempts → is_done (executor k d) ≡ false))
      ⊎ ((b ≡ false)
          × (target ≡ none)
          × (attempts ≡ n + more)
          × ((k : ℕ) → n < k → k ≤ n + more → is_done (executor k d) ≡ false))

  -- One call that was not done, and then the others.
  IsFirstDone-step :
      (n more : ℕ) (r : Bool × Option String × Option String × ℕ)
      → is_done (executor (n + 1) d) ≡ false
      → IsFirstDone (n + 1) more r
      → IsFirstDone n (suc more) r
  IsFirstDone-step n more (b, target, last, attempts) e (inl (x, y, z, u, v)) =
      inl (x, y, omega arith, omega arith, λ k lo hi. grind arith)
  IsFirstDone-step n more (b, target, last, attempts) e (inr (x, y, z, v)) =
      inr (x, y, omega arith, λ k lo hi. grind arith)

  attempt-cases :
      (delay : ℕ) (rest : List ℕ) (n : ℕ) (last : Option String)
      → ((target : Option String) × (executor (n + 1) d ≡ done target)
          × (attempt_from executor (delay ∷ rest) n last d ≡ (true, target, none, n + 1)))
        ⊎ ((why : String) × (is_done (executor (n + 1) d) ≡ false)
            × (attempt_from executor (delay ∷ rest) n last d
                ≡ attempt_from executor rest (n + 1) (some why) d))
  unfolding attempt_from
  attempt-cases delay rest n last = elim (Executed-cases (executor (n + 1) d)) [
    | inl (target, e) ↦ inl (target, e, rw (attempt_from, e) refl)
    | inr (inl e) ↦ inr ("executor returned ok=false", rw e refl, rw (attempt_from, e) refl)
    | inr (inr (inl (why, e))) ↦ inr (why, rw e refl, rw (attempt_from, e) refl)
    | inr (inr (inr (why, e))) ↦ inr (why, rw e refl, rw (attempt_from, e) refl)
  ]

  -- The loop calls the adapter once for each delay at most, numbered from one, and stops at the first
  -- call that is done: with it the execution succeeds, and with none it fails after all of them.
  pub attempts_lem :
      (delays : List ℕ) (n : ℕ) (last : Option String)
      → IsFirstDone n (length delays) (attempt_from executor delays n last d)
  unfolding attempt_from
  attempts_lem [] n last = inr (refl, refl, omega arith, λ k lo hi. absurd (omega arith))
  attempts_lem (delay ∷ rest) n last = elim (attempt-cases delay rest n last) [
    | inl (target, e, r) ↦
        rw r (inl (refl, e, omega arith, omega arith, λ k lo hi. absurd (omega arith)))
    | inr (why, e, r) ↦ rw r (
        IsFirstDone-step n (length rest) (attempt_from executor rest (n + 1) (some why) d) e
          (attempts_lem rest (n + 1) (some why)))
  ]
