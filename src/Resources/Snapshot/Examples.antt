-- ===== src/Resources/Snapshot/Examples.antt =====
-- Two READY tasks that write under one directory: the snapshot lets the scheduler start one of them.
use codex_autopilot.Prelude.{
  ℕ, String, ◌≡◌, refl, true, none, [], ◌∷◌, ◌==◌, lookup, insert, ok, text_less, sort_by,
}
use codex_autopilot.Plan.{Plan, ResourceClaim, find_task}
use codex_autopilot.RunState.{RunState}
use codex_autopilot.PlanGate.{require_plan_verified}
use codex_autopilot.Usage.{worker_budget}
use codex_autopilot.Models.{logical_model}
use codex_autopilot.Samples.{plan, task, state_with, digest}
use codex_autopilot.TaskState.{
  value, coerce_task_state, get_task, unmet_from, unmet_dependencies, dependencies_eligible,
  dependency_met, normalize, check_entry, gate_entry, check_entries, validate_task_states,
}
use codex_autopilot.Scheduler.Ready.{
  is_candidate, ready_from, compute_ready_task_ids, validate_scheduler_state, mark_ready, kept_ages,
  give_age, give_ages, reconciled, reconcile_ready_tasks,
}
use codex_autopilot.Scheduler.Priority.{
  PriorityScore, ordered, comes_before, dependents_of, max_over, critical_path, descendants,
  graph_relevance,
}
use codex_autopilot.Scheduler.Availability.{
  Availability, resource_conflict, validate_availability, task_capabilities, count_all, usage_from,
  active_capability_usage, effective_capability_limits, is_full, missing_capabilities,
  availability_reasons,
}
use codex_autopilot.Scheduler.Decision.{
  Decision, effective_strategy, worker_budget_for, effective_worker_limit, follow_budget,
  scores_from, reasons_against, place_task, consider, pass_over, decide_on, launch, checks,
  schedule,
}
use codex_autopilot.Resources.Targets.{
  split_slash, parts, has_magic, before_magic, glob_static_root, is_prefix, is_within, paths_nested,
  glob_match, glob_matches, targets_overlap, claims_match, claims_conflict,
}
use codex_autopilot.Resources.Conflicts.{all_apart}
use codex_autopilot.Resources.Journal.{
  is_included, same_map, replay, counts_from, held_map, check_locks,
  validate_persisted_resource_state,
}
use codex_autopilot.Resources.Normalize.{
  Host, has_nul, join, from_magic, path_text, under_root, normalize_glob, normalized_target,
  normalize_claim, normalize_claims,
}
use codex_autopilot.Resources.Snapshot.{
  Bundles, IncidentSnapshot, add_reason, incident_reasons, table, conflicting, is_available,
  available_from, normalize_all, build_scheduler_availability,
}
use codex_autopilot.Resources.Snapshot.Separates.{
  IsSeparated, build_scheduler_availability-IsSeparated,
}

abbrev claim : String → String → String → ResourceClaim
claim kind target access = record { id = "out"; kind = kind; target = target; access = access }

abbrev writing : Plan
writing = record plan {
  tasks =
      record (task "A" [] 5) { resources = claim "path" "build/out.txt" "write" ∷ [] }
      ∷ record (task "B" [] 5) { resources = claim "directory" "build" "exclusive" ∷ [] }
      ∷ [];
}

abbrev host : Host
host = record {
  resolve = λ p. p;
  nfkc = λ t. t;
  casefold = λ t. t;
  fnmatchcase = λ name pattern. name == pattern;
}

abbrev before : RunState
before = state_with (("A", "READY") ∷ ("B", "READY") ∷ []) []

abbrev calm : IncidentSnapshot
calm = record { paused_task_ids = []; incidents = [] }

abbrev availability : Availability
availability = record {
  available_capabilities = none;
  capability_limits = [];
  resource_available = ("A", true) ∷ ("B", true) ∷ [];
  resource_conflicts = ("A", "B" ∷ []) ∷ ("B", "A" ∷ []) ∷ [];
  blocked_reasons = [];
}

program : Unit {0}
unfolding lookup insert find_task split_slash parts has_magic before_magic glob_static_root
    is_prefix is_within paths_nested glob_match glob_matches targets_overlap claims_match
    claims_conflict all_apart is_included same_map replay counts_from held_map check_locks
    validate_persisted_resource_state has_nul join from_magic path_text under_root normalize_glob
    normalized_target normalize_claim normalize_claims add_reason incident_reasons table conflicting
    is_available available_from normalize_all build_scheduler_availability value coerce_task_state
    get_task unmet_from unmet_dependencies dependencies_eligible dependency_met normalize
    check_entry gate_entry check_entries validate_task_states require_plan_verified worker_budget
    logical_model is_candidate ready_from compute_ready_task_ids validate_scheduler_state mark_ready
    kept_ages give_age give_ages reconciled reconcile_ready_tasks sort_by text_less ordered
    comes_before dependents_of max_over critical_path descendants graph_relevance
    validate_availability task_capabilities count_all usage_from active_capability_usage
    effective_capability_limits is_full missing_capabilities availability_reasons effective_strategy
    worker_budget_for effective_worker_limit follow_budget scores_from reasons_against place_task
    consider pass_over decide_on launch checks schedule
program = tt

build : build_scheduler_availability host "/repo" writing before calm ≡ ok availability
unfolding program
build = refl

abbrev after : RunState
after = record before { task_ready_since = ("A", 1) ∷ ("B", 2) ∷ []; scheduler_sequence = 2 }

abbrev score : String → ℕ → ℕ → PriorityScore
score task_id sequence index = record {
  task_id = task_id;
  resource_available = true;
  explicit_priority = 5;
  critical_path_length = 1;
  transitive_fan_out = 0;
  ready_sequence = sequence;
  declaration_index = index;
}

abbrev decision : Decision
decision = record {
  strategy = "parallel";
  worker_limit = 2;
  open_worker_slots = 2;
  ready_task_ids = "A" ∷ "B" ∷ [];
  selected_task_ids = "A" ∷ [];
  priorities = score "A" 1 0 ∷ score "B" 2 1 ∷ [];
  deferred = record { task_id = "B"; reasons = resource_conflict "A" ∷ [] } ∷ [];
}

start_one : schedule digest writing before availability ≡ (after, ok decision)
unfolding program
start_one = refl

build_scheduler_availability-IsSeparated_example :
    (normalized : Bundles) × (normalize_all host "/repo" writing.tasks [] ≡ ok normalized)
    × IsSeparated host normalized ("A" ∷ [])
build_scheduler_availability-IsSeparated_example =
    build_scheduler_availability-IsSeparated host "/repo" digest writing before calm
      ((refl, tt), ((refl, tt), tt)) build start_one
