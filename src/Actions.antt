-- ===== src/Actions.antt =====
-- Approval and execution of actions (apps/datacore/src/actions.ts; the record types are in
-- apps/datacore/src/domain.ts and packages/contracts/src/actions.ts). `Drafts` has the records and
-- the approval chain, `Params` the check of a payload, `Service` the operations of `ActionService`,
-- and the other children what holds of them.
pub mod Drafts
pub mod Params
pub mod Service
pub mod World
pub mod Execution
pub mod Chain
pub mod Approval
pub mod Approved
pub mod Outcomes
pub mod Traces
pub mod Attempts
mod Tests
