-- ===== src/StateStore/Examples.antt =====
-- A state that is saved and loaded (src/codex_autopilot/run_state.py).
use codex_autopilot.Prelude.{
  ◌≡◌, refl, true, false, none, some, [], ◌∷◌, ◌==◌, lookup, insert, ok, err, delete, invalid_state,
}
use codex_autopilot.Samples.{states, state_with}
use codex_autopilot.TaskState.{find_value, value, coerce_task_state, normalize}
use codex_autopilot.Usage.{Limits, flat}
use codex_autopilot.RunState.{RunState}
use codex_autopilot.Resources.Normalize.{Host}
use codex_autopilot.Resources.Conflicts.{all_apart}
use codex_autopilot.Resources.Journal.{
  same_held, is_included, same_map, replay, counts_from, held_map, check_locks,
  validate_persisted_resource_state,
}
use codex_autopilot.StateStore.{
  check_limits, check_tasks, is_active, check_ages, check_locks_of, check_tallies, check_lifecycle,
  check_sessions, check_session, check_changes, check_resilience, check_change, validate_state,
  with_limits, load, save,
}

program : Unit {0}
unfolding lookup insert delete all_apart same_held is_included same_map replay counts_from held_map
    check_locks validate_persisted_resource_state find_value value coerce_task_state normalize
    check_limits check_tasks is_active check_ages check_locks_of check_tallies check_lifecycle
    check_sessions check_session check_changes check_resilience check_change validate_state
    with_limits load save
program = tt

abbrev host : Host
host = record {
  resolve = λ p. p;
  nfkc = λ t. t;
  casefold = λ t. t;
  fnmatchcase = λ name pattern. name == pattern;
}

abbrev state : RunState
state = record (state_with (states "RUNNING" "WAITING" "WAITING" "WAITING") ("A" ∷ [])) {
  scheduler_sequence = 2;
  task_attempts = ("A", 1) ∷ [];
}

abbrev limits : Limits
limits = flat (record {
  credits = none;
  spend_control_reached = false;
  rate_limit_reached_type = none;
  primary_used = some 1000;
  filled = true;
})

saved : save host state ≡ ok state
unfolding program
saved = refl

-- An active task that is in no active state is refused.
refused : save host (record state { active_task_ids = "A" ∷ "B" ∷ [] }) ≡ err invalid_state
unfolding program
refused = refl

loaded : load host state limits ≡ ok (with_limits limits state)
unfolding program
loaded = refl
