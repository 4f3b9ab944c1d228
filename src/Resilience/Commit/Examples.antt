-- ===== src/Resilience/Commit/Examples.antt =====
-- A commit of a second version of the plan, crashed after every write and recovered
-- (src/codex_autopilot/resilience.py).
use codex_autopilot.Prelude.{
  ℕ, String, ◌≡◌, refl, true, false, none, some, [], ◌∷◌, nat_eq, ◌==◌, if◌then◌else◌, All, lookup,
  insert, ok, err, Failure, delete,
}
use codex_autopilot.Plan.{Plan, find_task}
use codex_autopilot.Plan.Equality.{same_policy, same_resources, same_task, same_tasks, same_plan}
use codex_autopilot.Samples.{plan, states, state_with}
use codex_autopilot.TaskState.{
  find_value, value, coerce_task_state, normalize, check_entries, check_entry, gate_entry,
  unmet_dependencies, unmet_from, dependency_met, get_task, dependency_state_satisfies,
  validate_task_states,
}
use codex_autopilot.Usage.{Limits, missing, wrapped, flat}
use codex_autopilot.RunState.{RunState}
use codex_autopilot.Resources.Normalize.{Host}
use codex_autopilot.Resources.Conflicts.{all_apart}
use codex_autopilot.Resources.Journal.{
  same_held, is_included, same_map, replay, counts_from, held_map, check_locks,
  validate_persisted_resource_state,
}
use codex_autopilot.StateStore.{
  check_limits, check_tasks, is_active, check_ages, check_locks_of, check_tallies, check_lifecycle,
  check_sessions, check_session, check_changes, check_resilience, check_change, validate_state,
  with_limits, load, save,
}
use codex_autopilot.Resilience.Commit.{
  Transaction, Disk, with_status, Trace, prepare, write_all, commit_plan_change, check_files,
  check_transaction, recover_from, recover_plan_change_transaction, record_rate_limits,
}
use codex_autopilot.Resilience.Commit.Recovers.{IsCompleted, commit_plan_change-recovers}
use codex_autopilot.Resilience.Commit.Snapshots.{recover_plan_change_transaction-stale_limits}

program : Unit {0}
unfolding lookup insert delete find_task same_policy same_resources same_task same_tasks same_plan
    all_apart same_held is_included same_map replay counts_from held_map check_locks
    validate_persisted_resource_state find_value value coerce_task_state normalize check_entries
    check_entry gate_entry unmet_dependencies unmet_from dependency_met get_task
    dependency_state_satisfies validate_task_states check_limits check_tasks is_active check_ages
    check_locks_of check_tallies check_lifecycle check_sessions check_session check_changes
    check_resilience check_change validate_state with_limits load save prepare write_all
    commit_plan_change check_files check_transaction recover_from recover_plan_change_transaction
    record_rate_limits
program = tt

abbrev host : Host
host = record {
  resolve = λ p. p;
  nfkc = λ t. t;
  casefold = λ t. t;
  fnmatchcase = λ name pattern. name == pattern;
}

abbrev version_text : ℕ → String
version_text n = if nat_eq n 1 then "v1" else "v2"

abbrev digest : Plan → String
digest p = version_text p.graph_version

-- Digests that tell apart the versions and whether there is a snapshot.
abbrev state_digest : RunState → String
state_digest s = elim s.rate_limits [
  | missing ↦ version_text s.graph_version
  | wrapped w ↦ "wrapped"
  | flat w ↦ "flat"
]

abbrev candidate : Plan
candidate = record plan { graph_version = 2 }

abbrev base : RunState
base = state_with (states "READY" "WAITING" "WAITING" "WAITING") []

abbrev target : RunState
target = record base { graph_version = 2; phase = "PLAN_CHANGE_APPLIED" }

abbrev disk : Disk
disk = record { transaction = none; plan = plan; state = base; rate_limits = missing }

abbrev t : Transaction
t = prepare host digest state_digest plan candidate base target 1

abbrev prepared : Disk
prepared = with_status t "PREPARED" disk

abbrev plan_written : Disk
plan_written = with_status t "PLAN_WRITTEN" (record prepared { plan = candidate })

abbrev committed : Disk
committed = with_status t "COMMITTED" (record plan_written { state = target })

abbrev trace : Trace
trace = record {
  disks =
      prepared
      ∷ record prepared { plan = candidate }
      ∷ plan_written
      ∷ record plan_written { state = target }
      ∷ committed
      ∷ [];
  failure = none;
}

commit-candidate :
    commit_plan_change host digest state_digest disk (ok candidate) plan candidate target 1
    ≡ ok trace
unfolding program
commit-candidate = refl

recover-prepared :
    recover_plan_change_transaction host digest state_digest (λ p. ok p) prepared
    ≡ ok (true, committed)
unfolding program
recover-prepared = refl

commit_plan_change-recovers_example :
    (u : Transaction) × (u.target_plan ≡ candidate)
    × (u.target_state ≡ target)
    × (All (λ e. IsCompleted host digest state_digest (λ p. ok p) u e) trace.disks)
    × (trace.failure ≡ none)
unfolding program
commit_plan_change-recovers_example =
    commit_plan_change-recovers host digest state_digest (λ p. ok p) disk (ok candidate) candidate
      target 1 commit-candidate refl refl refl

abbrev snapshot : Limits
snapshot = flat (record {
  credits = none;
  spend_control_reached = false;
  rate_limit_reached_type = none;
  primary_used = some 1000;
  filled = true;
})

recover_plan_change_transaction-stale_limits_example :
    (e : Failure) × (recover_plan_change_transaction host digest state_digest
        (λ p. ok p)
        (record_rate_limits snapshot prepared)
      ≡ err e)
unfolding program
recover_plan_change_transaction-stale_limits_example =
    recover_plan_change_transaction-stale_limits host digest state_digest (λ p. ok p) disk
      (ok candidate) candidate target 1 snapshot commit-candidate refl refl
