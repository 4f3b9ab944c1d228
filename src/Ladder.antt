-- ===== src/Ladder.antt =====
-- The hiring ladder: how often one problem may be retried (src/codex_autopilot/revision_budget.py,
-- and task_effort, _reset_revision_budget_if_premises_changed and
-- _rehire_or_block_on_revision_limit of src/codex_autopilot/lifecycle_base.py). The details of the
-- journal's entries are texts for a reader and are left out; the ticket that stop_run files when the
-- ladder is spent is the incident store's and is not modelled.
pub mod Rounds
pub mod Grants
pub mod Revocation
mod Examples
use codex_autopilot.Prelude.{
  ℕ, zero, suc, ◌+◌, ◌-◌, ◌*◌, ◌/◌, ◌≤◌, ◌<◌, min, max, String, ◌≡◌, refl, sym, ap, ◌∙◌, subst, ◌≢◌,
  ◌↔◌, ◌⊎◌, inl, inr, Bool, true, false, not, ◌&&◌, ◌||◌, Option, none, some, List, [], ◌∷◌, ◌++◌,
  map, arith, eq_iff, ltb, leb, nat_eq, ◌==◌, if◌then◌else◌, ==_refl, Bool-cases, Option-cases,
  length, filter_by, any, all, All, All-append, All-map, All-elem, elem, IsDistinct, Dict, lookup,
  insert, keys, get_or, is_some, lookup-insert, lookup-insert_self, lookup-insert_ne, elem-keys,
  elem-keys-insert, All-lookup, All-insert, Result, ok, err, ◌>>=◌, ◌>>◌, ensure, or_raise,
  >>=-eq-ok, ensure-eq-ok, or_raise-eq-ok, ensure-bind-eq-ok, Result-cases, length-append, is_empty,
  filter_by_empty, filter_by_none, empty_of_is_empty, keys-insert_old, All-of_sort_by, same_texts,
  delete, append_nil, All-zip, append_empty, map_empty, filter_by_nil, All-snoc, count,
  count_absent, count_distinct, elem-append, filter_by_passes, elem-filter_by, All-of_elem,
  text_less, then_less, then_less_asym, then_less_trans, then_less_trans_down, text_less_asym,
  text_less_trans, bad_resource_state, bad_lock_owner, bad_execution_mode, token_is_bound,
  bad_claim, key_error, unknown_task_state, unknown_task_id, scheduler_graph_mismatch,
  active_mismatch, ready_age_unknown, serial_with_many_active, recursion_error, bad_availability,
  model_routing, sort_by, insert_sorted, IsSorted, sort_by-perm, sort_by-IsSorted, All-sort_by,
  All-insert_sorted,
}
use codex_autopilot.Plan.{Task, Plan, find_task}
use codex_autopilot.Models.{next_effort_step}
use codex_autopilot.RunState.{RunState, RevisionBasis, LifecycleEvent}
use codex_autopilot.TaskState.{value, revision_required, blocked, transition_task}

-- recorded_depends_on
unfoldable pub recorded_depends_on : Option RevisionBasis → Option (List String)
recorded_depends_on none = none
recorded_depends_on (some basis) = some (get_or [] basis.depends_on)

unfoldable pub premises_changed : Option RevisionBasis → List String → Bool
premises_changed basis depends_on = elim (recorded_depends_on basis) [
  | none ↦ false
  | some before ↦ not (same_texts before depends_on)
]

abbrev pub basis_for : ℕ → List String → RevisionBasis
basis_for graph_version depends_on = record {
  graph_version = some graph_version;
  depends_on = some depends_on;
  granted_on = none;
}

-- _append_event, without its details
unfoldable pub append_event : RunState → String → String → RunState
append_event state event task_id =
    let next = suc state.lifecycle_journal_sequence in
    record state {
      lifecycle_journal_sequence = next;
      lifecycle_journal =
          state.lifecycle_journal
          ++ record { sequence = next; event = event; task_id = task_id } ∷ [];
    }

abbrev pub used_of : RunState → String → ℕ
used_of state k = get_or 0 (lookup k state.task_revisions)

abbrev pub hires_of : RunState → String → ℕ
hires_of state k = get_or 0 (lookup k state.task_rehires)

-- value or default
abbrev pub filled_or : String → Option String → String
filled_or default none = default
filled_or default (some t) = if t == "" then default else t

unfoldable pub task_effort : RunState → Task → String
task_effort state task =
    filled_or (filled_or "medium" task.reasoning) (lookup task.id state.task_effort)

-- _reset_revision_budget_if_premises_changed
unfoldable pub reset_revision_budget : RunState → Task → RunState
reset_revision_budget state task =
    if not (premises_changed (lookup task.id state.task_revision_basis) task.depends_on)
    then state
    else append_event
        (record state {
          task_revisions = insert task.id 0 state.task_revisions;
          task_rehires = insert task.id 0 state.task_rehires;
          task_effort = delete task.id state.task_effort;
          task_revision_basis =
              insert task.id (basis_for state.graph_version task.depends_on)
                state.task_revision_basis;
        })
        "revision_budget_reset_on_new_premises" task.id

unfoldable pub block_on_exhausted_ladder : Plan → RunState → String → Result RunState
block_on_exhausted_ladder plan state k = do
  raw ← or_raise (lookup k state.task_states) (key_error k)
  moved ←
      (if raw == value revision_required
        then transition_task plan state.task_states k (value blocked)
        else ok state.task_states)
  ok (append_event (record state { task_states = moved }) "hiring_ladder_exhausted" k)

-- The next rung, or the stop.
unfoldable pub climb : Plan → RunState → Task → Option String → Result (RunState × Bool)
climb plan state task (some promoted) = ok (
  append_event
      (record state {
        task_rehires = insert task.id (hires_of state task.id + 1) state.task_rehires;
        task_effort = insert task.id promoted state.task_effort;
      })
      "task_rehired" task.id,
  false,
)
climb plan state task none = do
  stopped ← block_on_exhausted_ladder plan state task.id
  ok (stopped, true)

-- The test of the budget that was issued to the current hire.
abbrev pub has_budget : Task → ℕ → ℕ → Bool
has_budget task used hires = ltb used (task.verification.max_revision_attempts * (hires + 1))

-- Past the reset: whether the budget of the current hire is spent, and then the next rung.
unfoldable pub rehire : Plan → RunState → Task → Result (RunState × Bool)
rehire plan state task =
    if has_budget task (used_of state task.id) (hires_of state task.id)
    then ok (state, false)
    else (do
      promoted ← next_effort_step (some (task_effort state task))
      climb plan state task promoted)

-- _rehire_or_block_on_revision_limit: true when the task stops
unfoldable pub rehire_or_block : Plan → RunState → String → Result (RunState × Bool)
rehire_or_block plan state k = do
  task ← or_raise (find_task k plan.tasks) (key_error k)
  rehire plan (reset_revision_budget state task) task

-- What the reservation of a revision writes for the task, when the ladder lets it go on.
unfoldable pub charge_revision : RunState → Task → RunState
charge_revision state task = record state {
  task_revisions = insert task.id (used_of state task.id + 1) state.task_revisions;
  task_revision_basis =
      insert task.id (basis_for state.graph_version task.depends_on) state.task_revision_basis;
}

unfoldable pub grant_fresh_hire : Plan → RunState → String → String → Result RunState
grant_fresh_hire plan state k grounds = do
  task ← or_raise (find_task k plan.tasks) (key_error k)
  let maximum = max 1 task.verification.max_revision_attempts
  let basis =
      get_or (record { graph_version = none; depends_on = none; granted_on = none })
        (lookup k state.task_revision_basis)
  ok (record state {
    task_rehires = insert k (max (hires_of state k) (used_of state k / maximum)) state.task_rehires;
    task_revision_basis =
        insert k (record basis { granted_on = some grounds }) state.task_revision_basis;
  })

unfoldable pub at_top_of_ladder : Plan → RunState → String → Result Bool
at_top_of_ladder plan state k = elim (find_task k plan.tasks) [
  | none ↦ ok false
  | some task ↦ if has_budget task (used_of state k) (hires_of state k) then ok false else (do
    promoted ← next_effort_step (some (task_effort state task))
    ok (not (is_some promoted)))
]

-- One round of a task that came back revised: none when it stops, and else the state in which the
-- revision is reserved and charged.
unfoldable pub revision_round : Plan → RunState → Task → Result (Option RunState)
revision_round plan state task = do
  (next, stopped) ← rehire_or_block plan state task.id
  ok (if stopped then none else some (charge_revision next task))
