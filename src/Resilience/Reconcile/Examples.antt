-- ===== src/Resilience/Reconcile/Examples.antt =====
-- A change that C, in its first run, asked for: a new task E before it
-- (src/codex_autopilot/resilience.py). A stays verified, C and D start anew.
use codex_autopilot.Prelude.{
  String, ◌≡◌, refl, none, some, List, [], ◌∷◌, lookup, insert, ok, err, plan_change_conflict,
  sort_by, insert_sorted,
}
use codex_autopilot.Plan.{Task, Plan, find_task}
use codex_autopilot.Plan.Equality.{same_policy, same_resources, same_task}
use codex_autopilot.Samples.{plan, states, state_with, task}
use codex_autopilot.TaskState.{
  TaskState, find_value, value, coerce_task_state, normalize, check_entries, check_entry,
  gate_entry, unmet_dependencies, unmet_from, dependency_met, get_task, dependency_state_satisfies,
  dependencies_eligible, validate_task_states,
}
use codex_autopilot.PlanGraph.{
  ranks_from, indegrees_from, no_dependents, add_dependent, add_dependents, rank_before,
  release_dependent, release_dependents, take_ready, topological_order,
}
use codex_autopilot.RunState.{RunState, PlanChange}
use codex_autopilot.Resilience.{append_resilience_event, active_plan_change}
use codex_autopilot.Resilience.Reconcile.{
  task_map_from, task_map, names_only_its_lead, leads_among, profession_leads, judge_difference,
  judge_task, changed_tasks, spread, affected_tasks, carried_states, open_task, open_tasks,
  rebuilt_states, carried_counters, age_ready, apply_record, check_versions, apply_states,
  reconcile_plan_change_state,
}
use codex_autopilot.Resilience.Reconcile.Contracts.{
  IsAllowed, reconcile_plan_change_state-contracts,
}
use codex_autopilot.Resilience.Reconcile.Rebuilt.{
  IsReconciled, reconcile_plan_change_state-IsReconciled,
}

program : Unit {0}
unfolding lookup insert insert_sorted sort_by find_task same_policy same_resources same_task
    find_value value coerce_task_state normalize check_entries check_entry gate_entry
    unmet_dependencies unmet_from dependency_met get_task dependency_state_satisfies
    dependencies_eligible validate_task_states ranks_from indegrees_from no_dependents add_dependent
    add_dependents rank_before release_dependent release_dependents take_ready topological_order
    append_resilience_event active_plan_change task_map_from task_map names_only_its_lead
    leads_among profession_leads judge_difference judge_task changed_tasks spread affected_tasks
    carried_states open_task open_tasks rebuilt_states carried_counters age_ready apply_record
    check_versions apply_states reconcile_plan_change_state
program = tt

abbrev candidate : Plan
candidate = record plan {
  graph_version = 2;
  tasks =
      task "A" [] 5
      ∷ task "B" ("A" ∷ []) 5
      ∷ task "C" ("A" ∷ "E" ∷ []) 9
      ∷ task "D" ("B" ∷ "C" ∷ []) 5
      ∷ task "E" ("A" ∷ []) 5
      ∷ [];
}

abbrev asked : PlanChange
asked = record {
  id = 1;
  status = "PLAN_VERIFYING";
  requester_task_id = "C";
  requester_session_token = "token-1";
  base_graph_version = 1;
  request = record { kind = "prerequisite"; target_task_id = "C"; evidence_ids = [] };
  created_at = "t1";
  applied_graph_version = none;
  completed_at = none;
}

abbrev before : RunState
before = record (state_with (states "VERIFIED" "READY" "RUNNING" "WAITING") ("C" ∷ [])) {
  task_attempts = ("C", 1) ∷ [];
  scheduler_sequence = 3;
  task_ready_since = ("B", 2) ∷ [];
  plan_change_sequence = 1;
  active_plan_change_id = some 1;
  plan_changes = asked ∷ [];
}

abbrev next : RunState
next = record before {
  status = "READY";
  phase = "PLAN_CHANGE_APPLIED";
  graph_version = 2;
  task_states =
      ("A", "VERIFIED")
      ∷ ("B", "READY")
      ∷ ("C", "WAITING")
      ∷ ("D", "WAITING")
      ∷ ("E", "READY")
      ∷ [];
  active_task_ids = [];
  task_attempts = ("A", 0) ∷ ("B", 0) ∷ ("C", 1) ∷ ("D", 0) ∷ ("E", 0) ∷ [];
  task_revisions = ("A", 0) ∷ ("B", 0) ∷ ("C", 0) ∷ ("D", 0) ∷ ("E", 0) ∷ [];
  scheduler_sequence = 4;
  task_ready_since = ("B", 2) ∷ ("E", 4) ∷ [];
  active_plan_change_id = none;
  plan_changes =
      record asked { status = "APPLIED"; applied_graph_version = some 2; completed_at = some "t2" }
      ∷ [];
  resilience_journal_sequence = 1;
  resilience_journal =
      record {
        sequence = 1;
        event = "plan_change_applied";
        task_id = some "C";
        plan_change_id = some 1;
      }
      ∷ [];
}

reconcile-C : reconcile_plan_change_state plan candidate before 1 "C" "t2" ≡ ok next
unfolding program
reconcile-C = refl

reconcile_plan_change_state-IsReconciled_example :
    (affected : List String) × IsReconciled plan candidate before next "C" affected
reconcile_plan_change_state-IsReconciled_example =
    reconcile_plan_change_state-IsReconciled plan candidate before 1 "C" "t2" reconcile-C

A-stands : lookup "A" (task_map plan) ≡ some (task "A" [] 5)
unfolding program
A-stands = refl

reconcile_plan_change_state-contracts_example :
    (after : Task) × (raw : String) × (state : TaskState) × (lookup "A" (task_map candidate)
      ≡ some after)
    × (lookup "A" before.task_states ≡ some raw)
    × (coerce_task_state raw ≡ ok state)
    × IsAllowed "C" "A" state (task "A" [] 5) after
reconcile_plan_change_state-contracts_example =
    reconcile_plan_change_state-contracts plan candidate before 1 "C" "t2" "A" (task "A" [] 5)
      reconcile-C A-stands

-- The verified task A is not rewritten.
rewriting-A :
    reconcile_plan_change_state plan
      (record candidate {
        tasks = task "A" [] 6 ∷ task "B" [] 5 ∷ task "C" [] 5 ∷ task "D" [] 5 ∷ [];
      })
      before
      1
      "C"
      "t2"
    ≡ err plan_change_conflict
unfolding program
rewriting-A = refl
