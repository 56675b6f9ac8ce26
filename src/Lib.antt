-- ===== src/Lib.antt =====
-- A model of the core services of the platform, with what holds of them. Paths are from the root of the
-- repository. DataCore (apps/datacore) keeps the data of tenants and runs jobs, rules and actions on it;
-- AgentCore (apps/agentcore) runs agents and plans with language models and tools.
--
-- Base: names from the libraries, Boolean tests, lists. Json: dynamic values over a type of numbers.
-- Store (apps/datacore/src/repo/memory.ts, memKey and MemStore): the repository, as a list of records in
--   the order of insertion. Every service below takes its stores and returns them changed.
-- ExecLock (apps/datacore/src/execlock.ts, ExecutionLockService, with tryAcquire of the repository):
--   leases with fences. Fences, Changes, Exclusion, Running and Reruns have what holds of them.
-- Outbox (apps/datacore/src/outbox.ts, OutboxService): events, their delivery to webhooks, retries.
-- Scheduler (apps/datacore/src/scheduler.ts, SchedulerService, with claimDue of the repository): cron
--   jobs, claimed and handed to handlers.
-- Actions (apps/datacore/src/actions.ts, ActionService): drafts, their approval chain, and their
--   execution by a write-back adapter. Drafts and Params have the records and the payload check, World
--   the state, Service and Execution the operations, the other children what holds of them.
-- Quarantine (apps/datacore/src/quarantine.ts, QuarantineService): rows that a pipeline put aside.
-- Rules (apps/datacore/src/ruledsl.ts): syntax trees, Lexer, Parser, Evaluation and Values, which joins
--   them. The lexer runs on fuel, one more than the length of the text, of which each turn reads a part.
--   The parser runs on fuel, 6 times the number of tokens and 6: between two tokens read lie at most six
--   nested calls. Grammar has the language as derivations, Sound and Complete compare the parser to it.
-- RuleEngine (apps/datacore/src/rules.ts, RulesService): the library of rules; Evaluate has evaluate, dryRun,
--   get and list, References has references and impact. Submission joins it to Actions.
-- Features (apps/datacore/src/features.ts, FeatureService): Registry has the features, Cascade what they
--   require of each other, Service the layers and their resolution, Writes the configuration. The search
--   of a cascade runs on fuel, one more than the number of features that are on, since each step meets
--   another of them. Closed, Narrowing and Search have what holds of them.
-- FeatureGate (apps/agentcore/src/features/gate.ts, FeatureGate, MockFeatureStore): the features of a tenant
--   as AgentCore sees them; Registry has apps/agentcore/src/features/registry.ts, where a walk over what a
--   feature requires runs on fuel, one more than the number of features.
-- Authz (apps/datacore/src/authz.ts, AuthzService): policies on resources; Rows has rowAllowed and explain,
--   and Grants says without the code's loops when a policy is on a resource and when it grants.
-- Breaker (apps/agentcore/src/llm/breaker.ts) and Breaker.Fallback (withFallback of
--   apps/agentcore/src/llm/providers.ts): the circuit breaker of the providers.
-- Budget (apps/agentcore/src/tools/budget.ts, BudgetTracker): what a task may spend.
-- Plans (apps/agentcore/src/workflow/validate.ts): validatePlanSteps, the checks before a plan is published,
--   and in Cycles detectStaticCycle, which runs on fuel, one more than the number of definitions.
-- Workflow (apps/agentcore/src/workflow/executor.ts, runWorkflow): the run of a plan, step by step, with
--   the exceptions that end it; Steps says when a step lets the run go on,
--   Turns that each turn does so, and Laws follows the run.
--
-- Times are natural numbers of milliseconds, where the source has ISO strings and Date values. Each
-- reading of the clock, each new id, and each call of an outside service (webhooks, handlers, adapters,
-- providers, cron, regular expressions, toUpperCase) is an argument. Operations run one after another;
-- interleavings are sequences of operations. Numbers of the rule language are a type with operations.
-- Not modelled: HTTP and databases, rule scans, the
-- ontology, time series, agents and the routing to them, templates and the rendering
-- of answers, the user interface, logs and metrics.
pub mod Base
pub mod Store
pub mod ExecLock
pub mod Outbox
pub mod Breaker
pub mod Budget
pub mod Json
pub mod Actions
pub mod Scheduler
pub mod Rules
pub mod RuleEngine
pub mod Authz
pub mod Features
pub mod FeatureGate
pub mod Plans
pub mod Workflow
pub mod Quarantine
