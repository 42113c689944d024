-- ===== src/Lib.antt =====
-- Dev Plane: the decisions of the control plane, from the scheduling of tasks to the authority, the
-- policies and the budgets that its agents work under, and the verification of what they did.
--
-- Scheduler (packages/scheduler/scheduler.go). A manifest names tasks with the paths that they own,
--   their dependencies and their needs. `validate`, `next`, `plan_waves` and `ownership_conflict`
--   are `Validate`, `Next`, `PlanWaves` and `OwnershipConflict`. `Scheduler.Defs` has the records
--   and the paths, `Scheduler.Graph` the validation with its depth-first search, `Scheduler.Select`
--   the selection and the waves; the modules beside them are proofs.
-- Execution (packages/execution/execution.go). Activations with epochs, grants and manifests of
--   grants, and the intents and receipts of external effects: one function per function of Go, in
--   `Execution.Defs`, `Execution.Grants` and `Execution.Effects`.
-- Policies (packages/policies/policy.go and packages/policies/rbac.go). The engine is its list of
--   policies; `default_policies` is the list of `DefaultEngine`, and `rbac_config` the permissions.
-- Budget (packages/models/budget.go and apps/api/internal/budget/engine.go). The limits of a run;
--   the queries of the database are the fields of `Store`.
-- Capability (apps/api/internal/capability/kernel.go and operations.go). `evaluate_request` is
--   `Evaluate`: it asks the permissions, the policies and the budget, and mints a grant of Execution.
--   `evaluate_batch` is `EvaluateBatch`. The audit log is the list of the entries that are written.
-- Readiness (packages/readiness/task.go and readiness.go). `assess_task` is `AssessTask`, in
--   `Readiness.Defs`, and `inspect` is `Inspect`, in `Readiness.Inspect`, with a function per check;
--   `Readiness.Files` has the tree of files that is walked. `strings.ToLower`, the sort of names and
--   the JSON of manifests are parameters.
-- Protocol (packages/repoprotocol/protocol.go and claim.go). The configuration of a repository with
--   its rules, the evidence of gates, and work items with their leases. `Protocol.Paths` has the paths
--   and patterns, `Protocol.Defs` the types and their validation, `Protocol.Claim` is claim.go.
-- Work (packages/scheduler/work_adapter.go). `next_work` is `NextWork`: it makes a manifest of work
--   items of Protocol and asks Scheduler.
-- Verifier (packages/verifier/verifier.go). `verify` is `Verify`: it runs the gates that Protocol
--   requires. The runtime and the store are records of functions; each takes the calls that were made
--   so far, which `verify` returns with its result.
-- AgentRuntime (packages/agent-runtime). `Capabilities` and `Protocol` are protocol.go, `Registry` is
--   registry.go, `World` store.go with the state that the manager's calls change, `Manager` and
--   `Record` are manager.go, `Approval` is approval_manager.go. `Kept` says what the store and
--   the sink have of an event, in terms of their own functions. A provider is a record of functions of
--   the number of the calls before, and the events of a run are a list. `StoreLaws` says what is
--   expected of a store.
-- Authz (apps/api/internal/authz/authz.go). `authorize` has `AuthorizeProject` and the other checks by
--   resource. A table is a list of rows, and a query is a function of the lists that its FROM, JOIN and
--   WHERE describe; a failing database is an error of every query.
-- Prelude and Text are shared: tests, lists, results, the integers and the numbers, and strings.
--
-- A string is the list of its code points. An int is an integer; the sums of the scheduler's memory
-- and of the calls of a run wrap at 64 bits. A float64 is a value of an abstract type with the
-- operations that the code uses (`Float`), without laws: a theorem that needs one names it. A Go map is
-- an association list. Messages of errors are constructors with what the messages are made of.
-- The hash, `fmt.Sprint` and the sort of policies are parameters, and theorems name what they need.
--
-- The search of `Validate` runs on fuel, one more than the number of tasks, since a path of the search
-- visits no task twice; the loop of `PlanWaves` has one more than the number of tasks, since each
-- round removes a task. Both are shown to be enough.
--
-- Not modelled: logging and metrics, JSON and YAML, the SQL behind the stores, the failures of the audit
-- writer (the code only logs them), the adapters of single providers, and the other parts of the
-- repository: HTTP handlers, worker, runtimes, model router, web
-- application and SDK.
pub mod Prelude
pub mod Text
pub mod Scheduler
pub mod Execution
pub mod Policies
pub mod Budget
pub mod Capability
pub mod Readiness
pub mod Protocol
pub mod Work
pub mod Verifier
pub mod AgentRuntime
pub mod Authz
