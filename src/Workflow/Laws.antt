-- ===== src/Workflow/Laws.antt =====
-- The course of a run (apps/agentcore/src/workflow/executor.ts, `runWorkflow`): which steps are started,
-- with which outputs, and in which order the events come.
use complete.Base.{
  String, Bool, true, false, not, ◌||◌, List, [], ◌∷◌, ◌++◌, Option, none, some, ◌≡◌, refl, arith,
  all, is_some,
}
use complete.Workflow.{
  Step, Outputs, Deps, Event, started, completed, draft_created, Turn, next, stop, raise, turn,
  after, run_workflow, Run, set_output,
}
use complete.Workflow.Steps.{goes_on, is_draft, Passes, Leaves, Fits}
use complete.Workflow.Turns.{turn-Fits}

abbrev is_over : List Event → Bool
is_over [] = true
is_over (e ∷ es) = false

-- Behind the start of a step comes its completion, but for the last one where the run `threw`;
-- completions stand nowhere else; and behind a failure or a denial comes nothing. The option is the step
-- that is started.
abbrev pub IsOrderly : (threw : Bool) → Option String → List Event → Type 0
IsOrderly threw none [] = Unit
IsOrderly threw none (started i ∷ es) = IsOrderly threw (some i) es
IsOrderly threw none (completed i o ∷ es) = ⊥
IsOrderly threw none (draft_created i ∷ es) = IsOrderly threw none es
IsOrderly threw (some i) [] = threw ≡ true
IsOrderly threw (some i) (completed j o ∷ es) =
    (i ≡ j) × ((goes_on o || is_over es) ≡ true) × IsOrderly threw none es
IsOrderly threw (some i) (started j ∷ es) = ⊥
IsOrderly threw (some i) (draft_created j ∷ es) = ⊥

-- The steps that were started, in order.
unfoldable pub starts : List Event → List String
starts [] = []
starts (started i ∷ es) = i ∷ starts es
starts (completed i o ∷ es) = starts es
starts (draft_created i ∷ es) = starts es

drafts-IsOrderly :
    (threw : Bool) (ds es : List Event)
    → all is_draft ds ≡ true
    → IsOrderly threw none es
    → IsOrderly threw none (ds ++ es)
drafts-IsOrderly threw [] es e h = h
drafts-IsOrderly threw (draft_created i ∷ ds) es e h = drafts-IsOrderly threw ds es e h
drafts-IsOrderly threw (started i ∷ ds) es e h = absurd (cc)
drafts-IsOrderly threw (completed i o ∷ ds) es e h = absurd (cc)

starts-drafts : (ds es : List Event) → all is_draft ds ≡ true → starts (ds ++ es) ≡ starts es
unfolding starts
starts-drafts [] es e = refl
starts-drafts (draft_created i ∷ ds) es e = starts-drafts ds es e
starts-drafts (started i ∷ ds) es e = absurd (cc)
starts-drafts (completed i o ∷ ds) es e = absurd (cc)

-- The course of a plan: from the steps and the outputs so far to the ids of the steps that are started
-- and the outputs at the end. A step that passes is followed by the rest of the plan; behind one that
-- does not pass, nothing is started.
pub data Course {V : Type 0} (deps : Deps V)
    : List (Step V) → Outputs V → List String → Outputs V → Type 0 where
  through : {os : Outputs V} → Course deps [] os [] os
  on :
      {s : Step V} {ss : List (Step V)} {os os' : Outputs V} {ids : List String} (put : Option V)
      → Passes deps s os put
      → Course deps ss (set_output s.id put os) ids os'
      → Course deps (s ∷ ss) os (s.id ∷ ids) os'
  over :
      {s : Step V} {ss : List (Step V)} {os : Outputs V}
      → ((put : Option V) → ¬ Passes deps s os put)
      → Leaves deps s os none
      → Course deps (s ∷ ss) os (s.id ∷ []) os
  blocked :
      {s : Step V} {ss : List (Step V)} {os : Outputs V} (p : V)
      → ((put : Option V) → ¬ Passes deps s os put)
      → Leaves deps s os (some p)
      → Course deps (s ∷ ss) os (s.id ∷ []) (set_output s.id (some p) os)

module _ {V : Type 0} where
  -- The events are in order, and the steps that they start, with the outputs, are the plan's course.
  abbrev pub IsTrace : Deps V → List (Step V) → Outputs V → Run V → Type 0
  IsTrace deps ss os r =
      IsOrderly (not (is_some r.result)) none r.events
      × Course deps ss os (starts r.events) r.outputs

  after-IsTrace :
      (deps : Deps V) (s : Step V) (ss : List (Step V)) (os : Outputs V) (t : Turn V)
      (k : Outputs V → Run V)
      → Fits (Passes deps s os) (Leaves deps s os) t
      → ((os' : Outputs V) → IsTrace deps ss os' (k os'))
      → IsTrace deps (s ∷ ss) os (after s os t k)
  unfolding starts
  after-IsTrace deps s ss os raise k fits h = (refl, over fits.0 fits.1)
  after-IsTrace deps s ss os (stop none o result) k fits h =
      ((refl, ground arith, tt), over fits.0 fits.1)
  after-IsTrace deps s ss os (stop (some p) o result) k fits h =
      ((refl, ground arith, tt), blocked p fits.0 fits.1)
  after-IsTrace deps s ss os (next put o es) k fits h =
      let os' = set_output s.id put os in
      let rest = h os' in
      let tests = fits.1 in
      let drafts : all is_draft es ≡ true = ground arith in
      let more = (k os').events in
      (
        (refl, ground arith, drafts-IsOrderly _ es more drafts rest.0),
        rw (starts-drafts es more drafts) (on put fits.0 rest.1),
      )

  -- A run starts the plan's steps one after another, and the next one just in case the step before
  -- passed: its parameters were resolved, and its tool, model or agent gave the output that is put, with
  -- no violated rule that blocks, or its tool failed where the step says to skip that. Behind a step
  -- that was denied, failed, was blocked or threw, and behind a rendered answer, nothing is started. Each
  -- step that is started is completed before the next one starts, but for the last one where an
  -- exception ends the run. The outputs at the end are those of the steps that passed, and that of the
  -- evaluation of rules that blocked.
  pub run_workflow-IsTrace :
      (deps : Deps V) (ss : List (Step V)) (os : Outputs V)
      → IsTrace deps ss os (run_workflow deps ss os)
  unfolding run_workflow starts
  run_workflow-IsTrace deps [] os = (tt, through)
  run_workflow-IsTrace deps (s ∷ ss) os =
      after-IsTrace deps s ss os (turn deps s os) (λ os'. run_workflow deps ss os')
        (turn-Fits deps s os) (λ os'. run_workflow-IsTrace deps ss os')
