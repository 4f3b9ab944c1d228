-- ===== src/Lib.antt =====
-- codex-autopilot runs a plan of tasks on Codex workers. A plan is a graph of tasks; a run keeps
-- the state of each task on disk; a scheduler decides which tasks may start; locks keep tasks that
-- would write the same resources apart. This library models that core and proves what keeps it
-- safe.
--
-- The parts, and the files that model them (sources are relative to the repository's root):
--
-- * Plan (src/codex_autopilot/plan.py): Plan.antt, Plan/Ids.antt; Plan/Equality.antt is the
--   equality of its dataclasses.
-- * Task lifecycle (src/codex_autopilot/task_state.py): TaskState.antt holds the states and the
--   operations under their Python names (coerce_task_state, unmet_dependencies,
--   validate_task_states, validate_transition, transition_task). TaskState/Gate, Validity and
--   Transitions say what each accepts, TaskState/Runs what holds along histories, and
--   TaskState/Migrate.antt is migrate_v08_task_states.
-- * Scheduler (src/codex_autopilot/scheduler.py): Scheduler/Ready.antt (compute_ready_task_ids,
--   reconcile_ready_tasks), Scheduler/Priority.antt (_graph_relevance, _priority_key),
--   Scheduler/Availability.antt (SchedulerAvailability and the reasons against a launch),
--   Scheduler/Decision.antt (schedule).
-- * Worker budget (src/codex_autopilot/usage.py): Usage.antt.
-- * Model routing (src/codex_autopilot/models.py): Models.antt, with Models/Efforts on the
--   ladder; Models/Selection holds resolve_selection.
-- * Plan gate (src/codex_autopilot/plan_verification.py): PlanGate.antt.
-- * Run state (src/codex_autopilot/run_state.py): RunState.antt holds the fields, StateStore.antt
--   the checks of the file (_validate_state) and StateStore.load and save; StateStore/Accepts takes
--   the checks apart.
-- * Plan admission (src/codex_autopilot/plan_admission.py and plan_parse.py): Admission.antt
--   (graph_plan on ids and dependencies, _validate_cycles), with Admission/Cycles and
--   Admission/Orders on what it means for the dependency order.
-- * Plan graph (src/codex_autopilot/plan_graph.py): PlanGraph.antt (topological_order).
--   PlanGraph/Counts, Children and Dependents are about its dictionaries, PlanGraph/Rounds about a
--   round of its loop, PlanGraph/Order about what it returns.
-- * Resilience (src/codex_autopilot/resilience.py): Resilience.antt (append_resilience_event,
--   active_plan_change, register_plan_change_request), Resilience/Commit.antt (commit_plan_change,
--   recover_plan_change_transaction), Resilience/Reconcile.antt (reconcile_plan_change_state),
--   Resilience/Running.antt (reconcile_running_work). The files below each are about what it
--   leaves.
-- * Hiring ladder (src/codex_autopilot/revision_budget.py, and the functions of
--   src/codex_autopilot/lifecycle_base.py and lifecycle_reservations.py that keep its tally):
--   Ladder.antt, with Ladder/Rounds and Ladder/Grants on what it allows. Ladder/Revocation holds
--   revoke_grants of src/codex_autopilot/ladder_grants.py, which takes a grant back when the
--   runtime patch that it rested on is gone.
-- * Resource locks (src/codex_autopilot/resources.py): Resources.antt holds the records,
--   Resources/Targets.antt the overlap of claims, Resources/Normalize.antt their identities,
--   Resources/Journal.antt the check of the persisted locks and the replay of their journal,
--   Resources/Requests.antt and Resources/Locks.antt acquisition and release,
--   Resources/Snapshot.antt what the locks let the scheduler start.
-- * Prelude holds what they share; Samples and the Examples files hold concrete runs.
--
-- How they interact: `schedule` asks the plan gate, reconciles the task map through the lifecycle's
-- operations, and takes the worker limit from the budget; the locks read and write the same run
-- state, and the plan's claims. A plan change is registered on the run state, reconciled against
-- the new plan with the lifecycle's validation and the dependency order, and committed to the plan
-- and state files, whose checks are those of the run state; what a crash leaves is reconciled
-- through the release of locks.
--
-- State is passed explicitly: an operation takes the run state and returns the new one. Code that
-- may raise returns a `Result`. A Python dict with text keys is a list of entries in insertion
-- order. Numbers are natural numbers; a priority, which is an integer from -1000000 to 1000000 in a
-- plan, is stored with 1000000 added, and `usedPercent` as hundredths of a percent.
--
-- Fuel: the recursion of `_graph_relevance` runs on fuel, the number of tasks, which is at least
-- the length of every path without a cycle; on a cycle the source recurses without end, and the
-- model raises. The decimal digits of a lock's name run on the number itself as fuel. The loop of
-- topological_order runs on the number of tasks, and the search for affected tasks on the number of
-- tasks and of those affected at first: a task is taken once. The recursion of _validate_cycles
-- runs on the number of tasks, since the tasks under way are distinct.
--
-- Parameters: the digests of a plan and of a run state (SHA-256 of canonical JSON), the admission
-- of a plan by validate_plan_change and validate_persisted_plan, links resolved by the file system,
-- Unicode's NFKC form and case folding, the matcher of one path segment (fnmatch), and the folders
-- in which a runtime patch lies. One theorem assumes that the digest tells three given states
-- apart, and one that a given plan is admitted; no other assumes anything of them.
--
-- Not modelled: the reading and writing of JSON files with the checks of their shape and of
-- timestamps, prompts and texts for people, subprocesses and the app server, the incident store but
-- for its list of revoked grants, memory, skills and hiring; of a plan change, the parsing of the
-- typed messages and the sessions that draft and judge it.
pub mod Admission
pub mod Ladder
pub mod Models
pub mod Plan
pub mod PlanGate
pub mod PlanGraph
pub mod Prelude
pub mod Resilience
pub mod Resources
pub mod RunState
pub mod Samples
pub mod Scheduler
pub mod StateStore
pub mod TaskState
pub mod Usage
