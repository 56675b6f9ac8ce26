-- ===== src/Actions/Chain.antt =====
-- Laws of the approval chain of a draft (apps/datacore/src/actions.ts): which steps a decision leaves
-- open and what it writes.
use complete.Base.{
  ℕ, ◌+◌, String, true, List, [], ◌∷◌, Option, none, some, ◌≡◌, ◌≢◌, ◌⊎◌, inl, inr, refl, arith,
  All, Bool-cases, is_some,
}
use complete.Actions.Drafts.{
  Decision, approve, ApprovalStep, is_open, first_open, change_first_open, decided, open_steps,
}

abbrev pub IsOpen : ApprovalStep → Type 0
IsOpen s = s.decision ≡ none

abbrev pub IsApproved : ApprovalStep → Type 0
IsApproved s = s.decision ≡ some approve

-- Undecided or approved.
abbrev pub IsClean : ApprovalStep → Type 0
IsClean s = IsOpen s ⊎ IsApproved s

-- An approved step was approved by somebody else than `origin`.
abbrev pub IsIndependent : String → ApprovalStep → Type 0
IsIndependent origin s = IsApproved s → (u : String) × (s.approver_id ≡ some u) × (u ≢ origin)

-- The chain is decided from its front: behind an open step every step is open.
abbrev pub IsSequential : List ApprovalStep → Type 0
IsSequential [] = Unit
IsSequential (s ∷ steps) = (IsOpen s → All IsOpen steps) × IsSequential steps

-- What holds of every step holds after a change of the first open one that keeps it.
pub change_first_open-All {κ} :
    (P : ApprovalStep → Type κ) (f : ApprovalStep → ApprovalStep) (steps : List ApprovalStep)
    → ((s : ApprovalStep) → P s → P (f s))
    → All P steps
    → All P (change_first_open f steps)
unfolding change_first_open
change_first_open-All P f [] keeps h = tt
change_first_open-All P f (s ∷ steps) keeps h = elim (Bool-cases (is_open s)) [
  | inl e ↦ rw e (keeps s h.0, h.1)
  | inr e ↦ rw e (h.0, change_first_open-All P f steps keeps h.1)
]

pub decided-IsSequential :
    (d : Decision) (user : String) (comment : Option String) (now : ℕ) (steps : List ApprovalStep)
    → IsSequential steps
    → IsSequential (change_first_open (decided d user comment now) steps)
unfolding change_first_open
decided-IsSequential d user comment now [] h = tt
decided-IsSequential d user comment now (s ∷ steps) h = elim (Bool-cases (is_open s)) [
  | inl e ↦ rw e ((λ o. absurd (cc)), h.1)
  | inr e ↦
      rw e ((λ o. absurd (ground (arith, e, o))), decided-IsSequential d user comment now steps h.1)
]

-- With no step open, clean steps are approved.
pub All-IsApproved :
    (steps : List ApprovalStep) → first_open steps ≡ none → All IsClean steps → All IsApproved steps
unfolding first_open
All-IsApproved [] e h = tt
All-IsApproved (s ∷ steps) e h = (ground arith, All-IsApproved steps (ground arith) h.1)

pub first_open-change :
    (f : ApprovalStep → ApprovalStep) (steps : List ApprovalStep)
    → is_some (first_open steps) ≡ true
    → change_first_open f steps ≢ []
unfolding first_open change_first_open
first_open-change f [] e = cc
first_open-change f (s ∷ steps) e = ground arith

pub open_steps-All : (i : ℕ) (chain : List String) → All IsOpen (open_steps i chain)
unfolding open_steps
open_steps-All i [] = tt
open_steps-All i (role ∷ chain) = (refl, open_steps-All (i + 1) chain)

pub All-open-IsSequential : (steps : List ApprovalStep) → All IsOpen steps → IsSequential steps
All-open-IsSequential [] h = tt
All-open-IsSequential (s ∷ steps) h = ((λ _. h.1), All-open-IsSequential steps h.1)
