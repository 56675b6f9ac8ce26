-- ===== src/Plans/Laws.antt =====
-- What a plan that passes its validation is (apps/agentcore/src/workflow/validate.ts,
-- `validatePlanSteps`).
use complete.Base.{String, true, false, not, ◌&&◌, List, [], ◌∷◌, ◌≡◌, All}
use complete.Plans.{
  PlanStep, PlanValidationOptions, is_render, is_action_draft, forbids_draft, has, add, is_last,
  refs_of,
}

module _ {N : Type 0} (matches : String → List String) (opts : PlanValidationOptions) where
  -- Ids are new, references go to earlier steps, an answer is rendered last, and a draft of an action
  -- is made only where the risk level lets it.
  abbrev pub IsSoundFrom : List String → List (PlanStep N) → Type 0
  IsSoundFrom seen [] = Unit
  IsSoundFrom seen (s ∷ rest) =
      (has seen s.id ≡ false)
      × (All (λ r. has seen r ≡ true) (refs_of matches s)
          × ((is_render s.type && not (is_last rest) ≡ false)
              × ((is_action_draft s.type && forbids_draft opts.risk_level ≡ false)
                  × IsSoundFrom (add seen s.id) rest)))
