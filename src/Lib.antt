-- ===== src/Lib.antt =====
-- The verification library of specmate.
--
-- Specmate takes a task (a feature or a bug fix) through a pipeline of stages that agents run, with
-- gates that the owner approves. `packages/core` holds the rules: the graph of a pipeline, the step
-- that decides where a finished stage leads, the checks of a stage's result, budgets and decisions.
-- `apps/orchestrator` keeps the tasks in a database and applies the rules under a lock per task.
--
-- Which file models what, a function keeping its name in snake case:
--   Lifecycle      packages/core/src/state.ts, state-schemas.ts: statuses, caps, budgets
--   Roles          packages/core/src/roles.ts: the contracts of the roles
--   Findings       packages/core/src/result.ts: verdicts and findings
--   Pipeline       packages/core/src/pipeline.ts: Nodes (types), Walk (accessors and legal moves),
--                  Advance (the step), Conditions, Reach and Validate (the load-time checks), Catalog
--                  (the shipped definitions), Reduction (profiles), Binding (providers)
--   Iterations     apps/orchestrator/src/store.ts: the rounds of the review loops
--   Budget         packages/core/src/budgets.ts
--   Decisions      packages/core/src/decisions.ts, and `escalationEvidence` of the engine (Escalation)
--   Failures       packages/core/src/failures.ts
--   Verification   packages/core/src/verification.ts
--   Results        packages/core/src/result.ts, plan.ts: the checks on what a stage returns
--   PlanChoice     packages/core/src/harness.ts, apps/orchestrator/src/store.ts: what the owner is asked
--                  about a plan
--   Examples       tests, and the theorems at inputs that meet their hypotheses
--
-- An error that the source throws is an `err` with the data of its message. A float is an exact number:
-- money in billionths of a dollar, time in milliseconds. Two nodes have one `JSON.stringify` text where
-- their fields are equal, since each is a literal with its fields in one order. The loop of
-- `reachesTerminal` takes fuel, one more than the pushes that all nodes together can make, and it is
-- shown that it never runs out.
--
-- Not modelled: the web application, the HTTP routes, the table declarations, the containers and
-- command lines of agents, git and GitHub, and the texts of prompts.
--
-- The engine, apps/orchestrator/src/engine.ts with the rows that apps/orchestrator/src/store.ts keeps:
--   Engine.State       the rows of one task as a `World`, its events and the engine's exceptions
--   Engine.Raise       `raiseDecision` and its search; its theorems are in Engine.Raise.Unique and Outcome
--   Engine.Transition  `applyTransition` and `dismissOpenDecisions`
--   Engine.Resolve     `resolveDecisionInTx`, `dismiss`, the coverage decision
--   Engine.Answer      `answer`, `applyCoverageChoice`, `createPlannedPrerequisites`
--   Engine.Plan        `recordPlanOutcome` of the store: what a planning stage leaves of its task
--   Engine.Gates       `approve`, `redirect`, `rework`, `restart`, `cancel`
--   Engine.Spending    `resume`, `raiseBudgetInTx`, `pauseForExhaustedBudget`
--   Engine.Dependents  `releaseDependentTask`, `raiseDeadBlocker`
--   Engine.Attempts    `claim`, `failAttempt`, `attemptHistory`
--   Engine.Parks       the end of `completeStage`: the stage parks its task or moves it on
--   Engine.Settled     what holds between two operations, proved for each of them in its children
--   Engine.Bounds      the caps on redirects and attempts
--   Engine.Life        the operations as commands, in any order
-- Each runs under the task's lock in one transaction, so it is a function from the rows of the task to
-- new rows or to the error that rolls it back. Rows are listed in the order of insertion, which stands
-- for their creation times; a decision has a number, a task its text id. An event keeps what identifies
-- it; the free payload of a transition is left out. What follows a commit (the release of the working
-- tree, the failing of queued responses) is outside; the release of dependents is a command on the
-- dependent. Parameters: trimming a text and the text of a number, which are the platform's, as are the
-- reading of a number and the ids of new tasks, and the sentences of prompts. `failAttempt` and `claim`
-- take the task, graph and stage that were read before the lock. An answer can be two transactions: its
-- `Outcome` has the rows as they were last committed, and what was thrown after that.
-- Not modelled of the engine: the rest of `completeStage` (the requests that it records, and the calls
-- before `advance`), the skipping of a node, the conversations and the actions of the owner's chat.
--
-- Beside the engine:
--   Runner.EditDiff    packages/runner/src/edit-diff.ts: the diff of what a tool did, aligned by a longest
--                      common subsequence. The table of lengths is the list of its rows; the text of a
--                      number is a parameter
--   Workspace.Paths    packages/workspace/src/paths.ts: the change folder of a task
--   Workspace.Changes  packages/workspace/src/diff.ts: what git prints of a comparison, read and cut to the
--                      ceiling; git's output and the number of a text are arguments
--   Workspace.Lock     packages/workspace/src/lock.ts: the lock on disk as a step relation on any number of
--                      processes and a clock; the mutex within one process is left out
--   Conversations      packages/core/src/conversations.ts over packages/db/src/conversation-store.ts: opening
--                      a conversation and posting to it, with the unique indexes; Conversations.Writing has
--                      the operations and its siblings their theorems. Trimming a text is a parameter
pub mod Prelude
pub mod Lifecycle
pub mod Roles
pub mod Findings
pub mod Pipeline
pub mod Iterations
pub mod Failures
pub mod Budget
pub mod Decisions
pub mod Verification
pub mod Results
pub mod Examples
pub mod Engine
pub mod PlanChoice
pub mod Runner
pub mod Workspace
pub mod Conversations
