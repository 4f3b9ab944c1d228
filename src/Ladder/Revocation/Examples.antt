-- ===== src/Ladder/Revocation/Examples.antt =====
-- A patch is withdrawn after it bought the task B a fresh hire.
use codex_autopilot.Prelude.{
  ◌≡◌, refl, true, ◌&&◌, none, some, [], ◌∷◌, ◌==◌, lookup, insert, get_or, ok,
}
use codex_autopilot.Plan.{find_task}
use codex_autopilot.RunState.{RunState}
use codex_autopilot.Samples.{plan, states, state_with}
use codex_autopilot.TaskState.{
  value, find_value, coerce_task_state, task_transitions, dependency_state_satisfies, get_task,
  dependency_met, unmet_from, unmet_dependencies, normalize, gate_entry, check_entry, check_entries,
  validate_task_states, check_eligible, matches_map, validate_transition, transition_task,
}
use codex_autopilot.Ladder.{append_event, grant_fresh_hire}
use codex_autopilot.Ladder.Revocation.{
  Folders, TaskReturn, Incident, Progress, first_folder, patch_status, patch_is_live, must_revoke,
  take_back_hires, without_grant, is_now, is_at_work, stands_at, must_block, take_back,
  record_engineer_action, revoke_return, revoke_returns, revoke_incidents, revoke_grants,
}
use codex_autopilot.Ladder.Revocation.Moves.{IsRevoked, revoke_grants-IsRevoked}
use codex_autopilot.Ladder.Revocation.Undone.{IsUndone, grant_fresh_hire-take_back}

program : Unit {0}
unfolding lookup insert find_task value find_value coerce_task_state task_transitions
    dependency_state_satisfies get_task dependency_met unmet_from unmet_dependencies normalize
    gate_entry check_entry check_entries validate_task_states check_eligible matches_map
    validate_transition transition_task append_event grant_fresh_hire first_folder patch_status
    patch_is_live must_revoke take_back_hires without_grant is_now is_at_work stands_at must_block
    take_back record_engineer_action revoke_return revoke_returns revoke_incidents revoke_grants
program = tt

abbrev before : RunState
before = record (state_with (states "VERIFIED" "READY" "READY" "WAITING") []) {
  task_revisions = ("B", 4) ∷ [];
}

abbrev granted : RunState
granted = record before {
  task_rehires = ("B", 2) ∷ [];
  task_revision_basis =
      ("B", record { graph_version = none; depends_on = none; granted_on = some "p1" }) ∷ [];
}

abbrev entry : TaskReturn
entry = record {
  task_id = "B";
  at = "t1";
  to = "READY";
  runtime_patch_ids = "p1" ∷ [];
  grant = record { rehires_before = some 0; rehires_now = some 2 };
}

abbrev ticket : Incident
ticket = record { incident_id = "i1"; returns = entry ∷ []; revoked_grants = [] }

-- The patch p1 was withdrawn.
abbrev folders : Folders
folders folder patch = folder == "withdrawn" && patch == "p1"

withdrawn : patch_status folders "p1" ≡ "withdrawn"
unfolding program
withdrawn = refl

abbrev after : Progress
after = record {
  state = record granted {
    task_states = states "VERIFIED" "BLOCKED" "READY" "WAITING";
    task_rehires = ("B", 0) ∷ [];
    task_revision_basis =
        ("B", record { graph_version = none; depends_on = none; granted_on = none }) ∷ [];
    lifecycle_journal_sequence = 1;
    lifecycle_journal = record { sequence = 1; event = "fresh_hire_revoked"; task_id = "B" } ∷ [];
  };
  store =
      record ticket {
        revoked_grants =
            record {
              task_id = "B";
              return_at = "t1";
              runtime_patch_ids = "p1" ∷ [];
              reason = "withdrawn";
              blocked_again = true;
              at = "t2";
            }
            ∷ [];
      }
      ∷ [];
  moved = "B" ∷ [];
}

grant-B : grant_fresh_hire plan before "B" "p1" ≡ ok granted
unfolding program
grant-B = refl

revoke-p1 : revoke_grants folders plan ("p1" ∷ []) "withdrawn" "t2" granted (ticket ∷ []) ≡ ok after
unfolding program
revoke-p1 = refl

-- The record of it keeps a second revocation from doing it again.
revoke-again :
    revoke_grants folders plan ("p1" ∷ []) "withdrawn" "t3" after.state after.store
    ≡ ok (record { state = after.state; store = after.store; moved = [] })
unfolding program
revoke-again = refl

held_before : entry.grant.rehires_before ≡ some (get_or 0 (lookup "B" before.task_rehires))
unfolding program
held_before = refl

held_now : entry.grant.rehires_now ≡ some (get_or 0 (lookup "B" granted.task_rehires))
unfolding program
held_now = refl

revoke_grants-IsRevoked_example : IsRevoked granted after
revoke_grants-IsRevoked_example =
    revoke_grants-IsRevoked folders plan ("p1" ∷ []) "withdrawn" "t2" granted (ticket ∷ [])
      revoke-p1

grant_fresh_hire-take_back_example : IsUndone before (take_back entry granted) "B"
grant_fresh_hire-take_back_example =
    grant_fresh_hire-take_back plan before "p1" entry grant-B held_before held_now
