-- ===== src/TaskState/Migrate/Examples.antt =====
-- A v0.8 run that was in its second task (src/codex_autopilot/task_state.py).
use codex_autopilot.Prelude.{◌≡◌, refl, some, [], ◌∷◌, All, elem, lookup, insert, ok}
use codex_autopilot.Plan.{ids, find_task}
use codex_autopilot.Samples.{plan, states}
use codex_autopilot.TaskState.{
  find_value, value, coerce_task_state, normalize, check_entries, check_entry, gate_entry,
  unmet_dependencies, unmet_from, dependency_met, get_task, dependency_state_satisfies,
  dependencies_eligible, validate_task_states,
}
use codex_autopilot.TaskState.Validity.{IsValid}
use codex_autopilot.TaskState.Migrate.{
  LegacyState, completed_ids, all_waiting, mark_verified, current_id, place_cursor, open_legacy,
  migrate_v08_task_states,
}
use codex_autopilot.TaskState.Migrate.Verified.{is_verified, migrate_v08_task_states-verified}

program : Unit {0}
unfolding lookup insert find_task find_value value coerce_task_state normalize check_entries
    check_entry gate_entry unmet_dependencies unmet_from dependency_met get_task
    dependency_state_satisfies dependencies_eligible validate_task_states completed_ids all_waiting
    mark_verified current_id place_cursor open_legacy migrate_v08_task_states
program = tt

abbrev legacy : LegacyState
legacy = record {
  milestone_index = 1;
  worker_history = record { milestone_id = some "A"; status = "ROTATE" } ∷ [];
  status = "RUNNING";
  phase = "RUNNING_TURN";
  milestone_id = some "B";
}

migrated : migrate_v08_task_states plan legacy ≡ ok (states "VERIFIED" "RUNNING" "READY" "WAITING")
unfolding program
migrated = refl

-- A run that was done has every task verified.
finished :
    migrate_v08_task_states plan (record legacy { status = "DONE" })
    ≡ ok (states "VERIFIED" "VERIFIED" "VERIFIED" "VERIFIED")
unfolding program
finished = refl

migrate_v08_task_states-verified_example :
    IsValid plan (states "VERIFIED" "RUNNING" "READY" "WAITING")
    × All
        (λ k.
          is_verified (states "VERIFIED" "RUNNING" "READY" "WAITING") k
          ≡ elem k (completed_ids legacy plan.tasks))
        (ids plan.tasks)
migrate_v08_task_states-verified_example = migrate_v08_task_states-verified plan legacy migrated
