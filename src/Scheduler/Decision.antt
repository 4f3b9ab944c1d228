-- ===== src/Scheduler/Decision.antt =====
-- One launch decision (schedule, effective_worker_limit, _effective_strategy): reconciliation, the
-- worker ceiling, the scores, and the greedy pass over them. The state comes back beside an error
-- too: what was reconciled before a raise stays reconciled.
pub mod Selection
pub mod Limits
mod Examples
use codex_autopilot.Prelude.{
  ℕ, zero, suc, ◌+◌, ◌-◌, ◌*◌, ◌/◌, ◌≤◌, ◌<◌, min, max, String, ◌≡◌, refl, sym, ap, ◌∙◌, subst, ◌≢◌,
  ◌↔◌, ◌⊎◌, inl, inr, Bool, true, false, not, ◌&&◌, ◌||◌, Option, none, some, List, [], ◌∷◌, ◌++◌,
  map, arith, eq_iff, ltb, leb, nat_eq, ◌==◌, if◌then◌else◌, ==_refl, Bool-cases, Option-cases,
  length, filter_by, any, all, All, All-append, All-map, All-elem, elem, IsDistinct, Dict, lookup,
  insert, keys, get_or, is_some, lookup-insert, lookup-insert_self, lookup-insert_ne, elem-keys,
  elem-keys-insert, All-lookup, All-insert, Result, ok, err, ◌>>=◌, ◌>>◌, ensure, or_raise,
  >>=-eq-ok, ensure-eq-ok, or_raise-eq-ok, ensure-bind-eq-ok, Result-cases, length-append, is_empty,
  filter_by_empty, filter_by_none, empty_of_is_empty, keys-insert_old, filter_by_passes,
  elem-filter_by, All-of_elem, text_less, then_less, then_less_asym, then_less_trans,
  then_less_trans_down, text_less_asym, text_less_trans, key_error, unknown_task_state,
  unknown_task_id, scheduler_graph_mismatch, active_mismatch, ready_age_unknown,
  serial_with_many_active, recursion_error, bad_availability, model_routing, sort_by, insert_sorted,
  IsSorted, sort_by-perm, sort_by-IsSorted, All-sort_by, All-insert_sorted,
}
use codex_autopilot.Plan.{Task, Plan, ids, find_task}
use codex_autopilot.PlanGate.{require_plan_verified}
use codex_autopilot.RunState.{RunState, ResilienceEvent}
use codex_autopilot.Usage.{WorkerBudget, worker_budget}
use codex_autopilot.TaskState.{ready, value}
use codex_autopilot.Scheduler.Ready.{reconcile_ready_tasks, validate_scheduler_state, is_ready}
use codex_autopilot.Scheduler.Priority.{PriorityScore, ordered, graph_relevance}
use codex_autopilot.Scheduler.Availability.{
  Availability, Deferral, resource_conflict, worker_capacity, validate_availability,
  availability_reasons, task_capabilities, count_all, active_capability_usage,
  effective_capability_limits,
}

pub record Deferred : Type 0 where
  pub task_id : String
  pub reasons : List Deferral

pub record Decision : Type 0 where
  pub strategy : String
  pub worker_limit : ℕ
  pub open_worker_slots : ℕ
  pub ready_task_ids : List String
  pub selected_task_ids : List String
  pub priorities : List PriorityScore
  pub deferred : List Deferred

unfoldable pub effective_strategy : Plan → RunState → String
effective_strategy plan state =
    if plan.legacy_serial
      || (plan.execution_strategy == "serial" || state.execution_strategy == "serial")
    then "serial"
    else if plan.execution_strategy == "auto" || state.execution_strategy == "auto"
    then "auto"
    else "parallel"

unfoldable pub worker_budget_for : Plan → RunState → WorkerBudget
worker_budget_for plan state =
    worker_budget (min plan.max_parallel_workers state.max_parallel_workers) state.rate_limits false

unfoldable pub effective_worker_limit : Plan → RunState → ℕ
effective_worker_limit plan state =
    if effective_strategy plan state == "serial"
    then 1
    else get_or (length plan.tasks) (worker_budget_for plan state).workers

-- The ceiling in the state follows an unlimited budget, with an event in the journal.
unfoldable pub follow_budget : Plan → RunState → RunState
follow_budget plan state =
    let limit = effective_worker_limit plan state in
    if not (is_some (worker_budget_for plan state).workers) && ltb state.max_parallel_workers limit
    then record state {
      max_parallel_workers = limit;
      resilience_journal_sequence = state.resilience_journal_sequence + 1;
      resilience_journal =
          state.resilience_journal
          ++ record {
            sequence = state.resilience_journal_sequence + 1;
            event = "worker_cap_followed_budget";
            task_id = none;
            plan_change_id = none;
          }
            ∷ [];
    }
    else state

-- The scores of the READY tasks, with their places in the plan.
unfoldable pub scores_from :
    Dict (ℕ × ℕ) → Availability → RunState → ℕ → List Task → List PriorityScore
scores_from relevance a state index [] = []
scores_from relevance a state index (t ∷ ts) =
    let rest = scores_from relevance a state (index + 1) ts in
    let (path, fan_out) = get_or (0, 0) (lookup t.id relevance) in
    if is_ready state.task_states t.id
    then record {
      task_id = t.id;
      resource_available = get_or true (lookup t.id a.resource_available);
      explicit_priority = t.priority;
      critical_path_length = path;
      transitive_fan_out = fan_out;
      ready_sequence = get_or 0 (lookup t.id state.task_ready_since);
      declaration_index = index;
    }
      ∷ rest
    else rest

-- What the greedy pass has decided so far.
pub record Pass : Type 0 where
  pub selected : List String
  pub usage : Dict ℕ
  pub deferred : List Deferred

-- The reasons against one task, given what is selected already.
unfoldable pub reasons_against :
    Plan → Availability → Dict ℕ → ℕ → Pass → Task → Bool → List Deferral
reasons_against plan a limits open_slots p task resource_ok =
    availability_reasons plan a limits p.usage task resource_ok
    ++ (map resource_conflict
          (filter_by (λ s. elem s (get_or [] (lookup task.id a.resource_conflicts))) p.selected)
        ++ (if leb open_slots (length p.selected) then worker_capacity ∷ [] else []))

-- Selects the task, or defers it with its reasons.
unfoldable pub place_task : Plan → Pass → Task → List Deferral → Pass
place_task plan p task [] = record p {
  selected = p.selected ++ task.id ∷ [];
  usage = count_all (task_capabilities plan task) p.usage;
}
place_task plan p task (r ∷ rs) = record p {
  deferred = p.deferred ++ record { task_id = task.id; reasons = r ∷ rs } ∷ [];
}

unfoldable pub consider : Plan → Availability → Dict ℕ → ℕ → Pass → PriorityScore → Result Pass
unfolding reasons_against place_task
consider plan a limits open_slots p score = do
  task ← or_raise (find_task score.task_id plan.tasks) (key_error score.task_id)
  ok (
      place_task plan p task
        (reasons_against plan a limits open_slots p task score.resource_available))

unfoldable pub pass_over :
    Plan → Availability → Dict ℕ → ℕ → Pass → List PriorityScore → Result Pass
pass_over plan a limits open_slots p [] = ok p
pass_over plan a limits open_slots p (score ∷ scores) = do
  p' ← consider plan a limits open_slots p score
  pass_over plan a limits open_slots p' scores

abbrev score_ids : List PriorityScore → List String
score_ids [] = []
score_ids (s ∷ ss) = s.task_id ∷ score_ids ss

-- The decision on a reconciled state whose ceiling is set.
unfoldable pub decide_on : Plan → RunState → Availability → ℕ → Result Decision
unfolding scores_from
decide_on plan state a limit = do
  let open_slots = limit - length state.active_task_ids
  relevance ← graph_relevance plan.tasks
  let scores = ordered (scores_from relevance a state 0 plan.tasks)
  usage ← active_capability_usage plan state
  done ←
      pass_over plan a (effective_capability_limits plan state a) open_slots
        (record { selected = []; usage = usage; deferred = [] }) scores
  ok (record {
    strategy = effective_strategy plan state;
    worker_limit = limit;
    open_worker_slots = open_slots;
    ready_task_ids = score_ids scores;
    selected_task_ids = done.selected;
    priorities = scores;
    deferred = done.deferred;
  })

-- The part behind reconciliation.
unfoldable pub launch : Plan → RunState → Availability → RunState × Result Decision
unfolding follow_budget
launch plan state a =
    if effective_strategy plan state == "serial" && ltb 1 (length state.active_task_ids)
    then (state, err serial_with_many_active)
    else let limit = effective_worker_limit plan state in
      let state' = follow_budget plan state in (state', decide_on plan state' a limit)

module _ (digest : Plan → String) where
  unfoldable pub checks : Plan → RunState → Availability → Result (RunState × List String)
  checks plan state a = do
    require_plan_verified digest plan state.plan_verification
    validate_availability plan a
    validate_scheduler_state plan state
    reconcile_ready_tasks digest plan state

  unfoldable pub schedule : Plan → RunState → Availability → RunState × Result Decision
  unfolding checks launch
  schedule plan state a = elim (checks plan state a) [
    | err e ↦ (state, err e)
    | ok reconciled ↦ launch plan reconciled.0 a
  ]
