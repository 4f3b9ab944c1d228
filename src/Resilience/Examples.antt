-- ===== src/Resilience/Examples.antt =====
-- Concrete runs of src/codex_autopilot/resilience.py: a request is registered, and a crash that left
-- A's worker, and the engineer on call for B, is reconciled.
use codex_autopilot.Prelude.{
  ℕ, String, ◌≡◌, refl, true, ◌||◌, Option, none, some, [], ◌∷◌, ◌==◌, Dict, lookup, insert, ok,
  delete,
}
use codex_autopilot.Plan.{find_task}
use codex_autopilot.Resources.{LockOwner, DurableResourceLock, LockEvent}
use codex_autopilot.Resources.Conflicts.{all_apart}
use codex_autopilot.Resources.Journal.{
  same_held, is_included, same_map, replay_acquired, replay_released, replay_event, replay,
  counts_from, held_map, check_locks, validate_persisted_resource_state,
}
use codex_autopilot.Resources.Normalize.{lstrip, rstrip}
use codex_autopilot.Resources.Requests.{find_token}
use codex_autopilot.Resources.Locks.{append_resource_event, release_resources_in_state}
use codex_autopilot.Samples.{plan, states, state_with}
use codex_autopilot.TaskState.{
  find_value, value, coerce_task_state, normalize, check_entries, check_entry, gate_entry,
  unmet_dependencies, unmet_from, dependency_met, get_task, dependency_state_satisfies,
  validate_task_states,
}
use codex_autopilot.RunState.{RunState, PlanChange, PlanChangeRequest, WorkerSession}
use codex_autopilot.StateStore.{
  check_limits, check_tasks, is_active, check_ages, check_locks_of, check_tallies, check_lifecycle,
  check_sessions, check_session, check_changes, check_resilience, check_change, validate_state,
}
use codex_autopilot.Resources.Normalize.{Host, strip, is_blank}
use codex_autopilot.Resilience.{
  append_resilience_event, active_plan_change, new_change, register_plan_change_request,
}
use codex_autopilot.Resilience.Registers.{register_plan_change_request-accepted}
use codex_autopilot.Resilience.Running.{
  Reconciliation, reconcile_running_work, check_observations, session_token, pending_from,
  lock_ids_by_token, change_at, retire_task, retire_engineer, check_retirable, reconcile_engineer,
  reconcile_worker, reconcile_session, reconcile_sessions,
}
use codex_autopilot.Resilience.Running.Follows.{Follows}
use codex_autopilot.Resilience.Running.Retires.{
  IsRetired, reconcile_running_work-retires, reconcile_running_work-Follows,
}
use codex_autopilot.Resilience.Running.Silence.{IsUntouched, reconcile_running_work-silent}

abbrev host : Host
host = record {
  resolve = λ p. p;
  nfkc = λ t. t;
  casefold = λ t. t;
  fnmatchcase = λ name pattern. pattern == "*" || name == pattern;
}

program : Unit {0}
unfolding lookup insert delete find_task all_apart same_held is_included same_map replay_acquired
    replay_released replay_event replay counts_from held_map check_locks
    validate_persisted_resource_state lstrip rstrip strip is_blank find_token append_resource_event
    release_resources_in_state find_value value coerce_task_state normalize check_entries
    check_entry gate_entry unmet_dependencies unmet_from dependency_met get_task
    dependency_state_satisfies validate_task_states check_limits check_tasks is_active check_ages
    check_locks_of check_tallies check_lifecycle check_sessions check_session check_changes
    check_resilience check_change validate_state append_resilience_event active_plan_change
    new_change register_plan_change_request check_observations session_token pending_from
    lock_ids_by_token change_at retire_task retire_engineer check_retirable reconcile_engineer
    reconcile_worker reconcile_session reconcile_sessions reconcile_running_work
program = tt

-- A runs and holds a file, B waits, and the engineer on call has a session for B.
abbrev session : String → String → String → WorkerSession
session token task_id kind = record {
  reservation_token = token;
  resource_ownership_token = none;
  operation_id = token;
  task_id = task_id;
  kind = kind;
  status = "ACTIVE";
  attempt = 1;
  relay_owner_thread_id = some "thread-1";
  failure_reason = none;
}

abbrev owner : LockOwner
owner = record {
  ownership_token = "token-1";
  run_id = "run-1";
  task_id = "A";
  attempt = 1;
  worker_id = "w-1";
  thread_id = none;
  turn_id = none;
}

abbrev lock : DurableResourceLock
lock = record {
  lock_id = "resource-lock-000001";
  owner = owner;
  claims =
      record { id = "out"; kind = "path"; target = "/repo/build/out.txt"; access = "write" } ∷ [];
  acquired_at = "t1";
  heartbeat_at = "t1";
  computer_use_slot = none;
}

abbrev event : ℕ → String → String → Option String → LockEvent
event n name at reason = record {
  sequence = n;
  event = name;
  lock_id = "resource-lock-000001";
  ownership_token = "token-1";
  task_id = "A";
  at = at;
  claim_ids = "out" ∷ [];
  computer_use_slot = none;
  reason = reason;
}

abbrev crashed : RunState
crashed = record (state_with (states "RUNNING" "WAITING" "WAITING" "WAITING") ("A" ∷ [])) {
  resource_locks = lock ∷ [];
  resource_lock_journal = event 1 "acquired" "t1" none ∷ [];
  resource_journal_sequence = 1;
  worker_sessions = session "token-1" "A" "worker" ∷ session "token-2" "B" "pipeline_engineer" ∷ [];
}

crashed_valid : validate_state host crashed ≡ ok tt
unfolding program
crashed_valid = refl

abbrev reports : Dict String
reports = ("token-1", "terminal") ∷ ("token-2", "absent") ∷ []

abbrev reconciled : Reconciliation
reconciled = record {
  state = record crashed {
    task_states = states "RETRY_WAIT" "WAITING" "WAITING" "WAITING";
    active_task_ids = [];
    task_retry_at = ("A", 130) ∷ [];
    worker_sessions =
        record (session "token-1" "A" "worker") {
          status = "RETRY_WAIT";
          failure_reason = some "crash reconciliation observed worker terminal";
        }
        ∷ record (session "token-2" "B" "pipeline_engineer") {
          status = "RETRY_WAIT";
          failure_reason = some "crash reconciliation observed pipeline engineer absent";
        }
        ∷ [];
    resource_locks = [];
    resource_lock_journal =
        event 1 "acquired" "t1" none
        ∷ event 2 "released" "t2" (some "authoritative crash reconciliation: terminal")
        ∷ [];
    resource_journal_sequence = 2;
    resilience_journal_sequence = 1;
    resilience_journal =
        record {
          sequence = 1;
          event = "worker_crash_reconciled";
          task_id = some "A";
          plan_change_id = none;
        }
        ∷ [];
  };
  retried_task_ids = "A" ∷ [];
  retained_task_ids = [];
  unresolved_task_ids = [];
  released_lock_ids = "resource-lock-000001" ∷ [];
}

reconcile-crashed : reconcile_running_work host plan crashed reports 100 30 "t2" ≡ ok reconciled
unfolding program
reconcile-crashed = refl

pending-A :
    lookup "token-1" (pending_from 0 crashed.worker_sessions [])
    ≡ some (0, session "token-1" "A" "worker")
unfolding program
pending-A = refl

reconcile_running_work-retires_example : IsRetired 130 "A" "token-1" reconciled.state
unfolding program
reconcile_running_work-retires_example =
    reconcile_running_work-retires host plan crashed reports 100 30 "t2" "token-1" 0
      (session "token-1" "A" "worker") reconcile-crashed pending-A refl

reconcile_running_work-Follows_example : Follows crashed reconciled.state
reconcile_running_work-Follows_example =
    reconcile_running_work-Follows host plan crashed reports 100 30 "t2" reconcile-crashed

crashed-tasks : validate_task_states plan crashed.task_states true ≡ ok crashed.task_states
unfolding program
crashed-tasks = refl

reconcile_running_work-silent_example :
    (r : Reconciliation) × (reconcile_running_work host plan crashed
        (("token-1", "active") ∷ [])
        100
        30
        "t2"
      ≡ ok r)
    × IsUntouched crashed r
reconcile_running_work-silent_example =
    reconcile_running_work-silent host plan crashed (("token-1", "active") ∷ []) 100 30 "t2"
      (refl, tt) crashed-tasks

abbrev request : PlanChangeRequest
request = record { kind = "dependency"; target_task_id = "A"; evidence_ids = [] }

abbrev change : PlanChange
change = record {
  id = 1;
  status = "DRAINING";
  requester_task_id = "A";
  requester_session_token = "token-1";
  base_graph_version = 1;
  request = request;
  created_at = "t1";
  applied_graph_version = none;
  completed_at = none;
}

abbrev registered : RunState
registered = record crashed {
  plan_change_sequence = 1;
  active_plan_change_id = some 1;
  plan_changes = change ∷ [];
  resilience_journal_sequence = 1;
  resilience_journal =
      record {
        sequence = 1;
        event = "plan_change_requested";
        task_id = some "A";
        plan_change_id = some 1;
      }
      ∷ [];
}

register-A :
    register_plan_change_request crashed request "A" "token-1" "t1" ≡ ok (change, registered)
unfolding program
register-A = refl

register_plan_change_request-accepted_example :
    (validate_state host registered ≡ ok tt)
    × (active_plan_change registered none ≡ ok change)
    × (registered.task_states ≡ crashed.task_states)
register_plan_change_request-accepted_example =
    register_plan_change_request-accepted host crashed request "A" "token-1" "t1" crashed_valid refl
      refl refl refl register-A
