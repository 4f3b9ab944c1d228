-- ===== src/Scheduler/Decision/Examples.antt =====
-- The scheduler on a small plan: A is VERIFIED, so B and C become READY, and one of them has room.
use codex_autopilot.Prelude.{◌≡◌, refl, true, some, [], ◌∷◌, lookup, insert, ok, text_less, sort_by}
use codex_autopilot.Plan.{find_task}
use codex_autopilot.RunState.{RunState}
use codex_autopilot.PlanGate.{require_plan_verified}
use codex_autopilot.Usage.{worker_budget}
use codex_autopilot.Models.{logical_model}
use codex_autopilot.TaskState.{
  value, coerce_task_state, get_task, unmet_from, unmet_dependencies, dependencies_eligible,
  dependency_met, normalize, check_entry, gate_entry, check_entries, validate_task_states,
}
use codex_autopilot.Samples.{plan, states, state_with, digest, open_house}
use codex_autopilot.Scheduler.Ready.{
  is_candidate, ready_from, compute_ready_task_ids, validate_scheduler_state, mark_ready, kept_ages,
  give_age, give_ages, reconciled, reconcile_ready_tasks,
}
use codex_autopilot.Scheduler.Ready.Marking.{IsReconciled, reconcile_ready_tasks-IsReconciled}
use codex_autopilot.Scheduler.Ready.Ages.{HasAges, reconcile_ready_tasks-HasAges}
use codex_autopilot.Scheduler.Priority.{
  PriorityScore, ordered, comes_before, dependents_of, max_over, critical_path, descendants,
  graph_relevance,
}
use codex_autopilot.Scheduler.Availability.{
  validate_availability, task_capabilities, count_all, usage_from, active_capability_usage,
  effective_capability_limits, is_full, missing_capabilities, availability_reasons,
  capability_capacity,
}
use codex_autopilot.Scheduler.Decision.{
  Decision, effective_strategy, worker_budget_for, effective_worker_limit, scores_from,
  reasons_against, place_task, consider, pass_over, decide_on, launch, checks, schedule,
}
use codex_autopilot.Scheduler.Decision.Limits.{IsSafe, schedule-IsSafe}

abbrev before : RunState
before = state_with (states "VERIFIED" "WAITING" "WAITING" "WAITING") []

abbrev after : RunState
after = record before {
  task_states = states "VERIFIED" "READY" "READY" "WAITING";
  task_ready_since = ("B", 1) ∷ ("C", 2) ∷ [];
  scheduler_sequence = 2;
}

abbrev score_c : PriorityScore
score_c = record {
  task_id = "C";
  resource_available = true;
  explicit_priority = 9;
  critical_path_length = 2;
  transitive_fan_out = 1;
  ready_sequence = 2;
  declaration_index = 2;
}

abbrev score_b : PriorityScore
score_b = record {
  task_id = "B";
  resource_available = true;
  explicit_priority = 5;
  critical_path_length = 2;
  transitive_fan_out = 1;
  ready_sequence = 1;
  declaration_index = 1;
}

abbrev decision : Decision
decision = record {
  strategy = "parallel";
  worker_limit = 2;
  open_worker_slots = 2;
  ready_task_ids = "C" ∷ "B" ∷ [];
  selected_task_ids = "C" ∷ [];
  priorities = score_c ∷ score_b ∷ [];
  deferred = record { task_id = "B"; reasons = capability_capacity "gpu" ∷ [] } ∷ [];
}

program : Unit {0}
unfolding lookup insert value coerce_task_state get_task unmet_from unmet_dependencies
    dependencies_eligible dependency_met normalize check_entry gate_entry check_entries
    validate_task_states find_task require_plan_verified worker_budget logical_model is_candidate
    ready_from compute_ready_task_ids validate_scheduler_state mark_ready kept_ages give_age
    give_ages reconciled reconcile_ready_tasks sort_by text_less ordered comes_before dependents_of
    max_over critical_path descendants graph_relevance validate_availability task_capabilities
    count_all usage_from active_capability_usage effective_capability_limits is_full
    missing_capabilities availability_reasons effective_strategy worker_budget_for
    effective_worker_limit scores_from reasons_against place_task consider pass_over decide_on
    launch checks schedule
program = tt

schedule-before : schedule digest plan before open_house ≡ (after, ok decision)
unfolding program
schedule-before = refl

reconcile-before : reconcile_ready_tasks digest plan before ≡ ok (after, "B" ∷ "C" ∷ [])
unfolding program
reconcile-before = refl

schedule-IsSafe_example : IsSafe plan open_house after decision
schedule-IsSafe_example =
    schedule-IsSafe digest plan before open_house
      ((refl, tt), ((refl, tt), ((refl, tt), ((refl, tt), tt)))) schedule-before

reconcile_ready_tasks-IsReconciled_example : IsReconciled plan after.task_states ("B" ∷ "C" ∷ [])
reconcile_ready_tasks-IsReconciled_example =
    reconcile_ready_tasks-IsReconciled digest plan before reconcile-before

reconcile_ready_tasks-HasAges_example : HasAges before after ("B" ∷ "C" ∷ [])
reconcile_ready_tasks-HasAges_example =
    reconcile_ready_tasks-HasAges digest plan before reconcile-before

critical_path-A : critical_path 4 plan.tasks "A" ≡ some 3
unfolding program
critical_path-A = refl
