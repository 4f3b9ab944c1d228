-- ===== src/Resilience/Reconcile.antt =====
-- The state of a run against a changed plan (reconcile_plan_change_state of
-- src/codex_autopilot/resilience.py). A set is a list here. A round of the search for the affected
-- tasks takes one task, and a task is affected once, which bounds the rounds.
pub mod Affected
pub mod Contracts
pub mod Rebuilt
mod Examples
use codex_autopilot.Prelude.{
  ℕ, zero, suc, ◌+◌, ◌-◌, ◌*◌, ◌/◌, ◌≤◌, ◌<◌, min, max, String, ◌≡◌, refl, sym, ap, ◌∙◌, subst, ◌≢◌,
  ◌↔◌, ◌⊎◌, inl, inr, Bool, true, false, not, ◌&&◌, ◌||◌, Option, none, some, List, [], ◌∷◌, ◌++◌,
  map, arith, eq_iff, ltb, leb, nat_eq, ◌==◌, if◌then◌else◌, ==_refl, Bool-cases, Option-cases,
  length, filter_by, any, all, All, All-append, All-map, All-elem, elem, IsDistinct, Dict, lookup,
  insert, keys, get_or, is_some, lookup-insert, lookup-insert_self, lookup-insert_ne, elem-keys,
  elem-keys-insert, All-lookup, All-insert, Result, ok, err, ◌>>=◌, ◌>>◌, ensure, or_raise,
  >>=-eq-ok, ensure-eq-ok, or_raise-eq-ok, ensure-bind-eq-ok, Result-cases, length-append, is_empty,
  filter_by_empty, filter_by_none, empty_of_is_empty, keys-insert_old, All-of_sort_by, bind-ok,
  same_texts, delete, append_nil, All-zip, append_empty, map_empty, filter_by_nil, All-snoc, count,
  count_absent, count_distinct, elem-append, filter_by_passes, elem-filter_by, All-of_elem,
  text_less, then_less, then_less_asym, then_less_trans, then_less_trans_down, text_less_asym,
  text_less_trans, invalid_state, plan_change_conflict, plan_change_state_conflict,
  plan_change_protocol, bad_observation, graph_cycle, bad_resource_state, bad_lock_owner,
  bad_execution_mode, token_is_bound, bad_claim, key_error, unknown_task_state, unknown_task_id,
  scheduler_graph_mismatch, active_mismatch, ready_age_unknown, serial_with_many_active,
  recursion_error, bad_availability, model_routing, sort_by, insert_sorted, IsSorted, sort_by-perm,
  sort_by-IsSorted, All-sort_by, All-insert_sorted,
}
use codex_autopilot.Plan.{Task, Plan, ids}
use codex_autopilot.Plan.Equality.{same_task, same_option}
use codex_autopilot.PlanGraph.{no_dependents, add_dependents, topological_order}
use codex_autopilot.TaskState.{
  TaskState, waiting, ready, retry_wait, verified, blocked, cancelled, coerce_task_state, is, among,
  value, dependencies_eligible, validate_task_states,
}
use codex_autopilot.RunState.{RunState, PlanChange}
use codex_autopilot.Resilience.{append_resilience_event, active_plan_change, has_id}

-- {task.id: task for task in tasks}
unfoldable pub task_map_from : List Task → Dict Task → Dict Task
task_map_from [] m = m
task_map_from (t ∷ ts) m = task_map_from ts (insert t.id t m)

unfoldable pub task_map : Plan → Dict Task
unfolding task_map_from
task_map plan = task_map_from plan.tasks []

abbrev pub with_lead : Option String → Task → Task
with_lead lead t = record t { verification = record t.verification { verifier_role = lead } }

unfoldable pub names_only_its_lead : Task → Task → Bool
names_only_its_lead before after =
    let lead = after.verification.verifier_role in
    not (same_option before.verification.verifier_role lead)
    && same_task (with_lead lead before) after

-- The text of a lead that is there and not "".
abbrev pub lead_of : Task → Option String
lead_of t = elim t.verification.verifier_role [
  | none ↦ none
  | some lead ↦ if lead == "" then none else some lead
]

unfoldable pub leads_among : List Task → String → List String
leads_among [] role_id = []
leads_among (t ∷ ts) role_id =
    let rest = leads_among ts role_id in
    elim (lead_of t) [
      | none ↦ rest
      | some lead ↦ if t.role == role_id && not (lead == role_id) then lead ∷ rest else rest
    ]

unfoldable pub profession_leads : Plan → String → List String
unfolding leads_among
profession_leads plan role_id = leads_among plan.tasks role_id

abbrev pub is_among : Option String → List String → Bool
is_among none named = false
is_among (some lead) named = elem lead named

abbrev pub rewritable : List TaskState
rewritable = waiting ∷ ready ∷ blocked ∷ []

-- A task that differs: whether it counts as changed.
unfoldable pub judge_difference : Plan → String → TaskState → Task → Task → String → Result Bool
unfolding names_only_its_lead profession_leads
judge_difference current requester raw_state before after task_id =
    let named = profession_leads current before.role in
    if is raw_state verified
    then err plan_change_conflict
    else if not (task_id == requester)
        && not (is raw_state cancelled)
        && names_only_its_lead before after
    then (if is_empty named || is_among after.verification.verifier_role named
        then ok false
        else err plan_change_conflict)
    else if not (task_id == requester) && not (among raw_state rewritable)
    then err plan_change_conflict
    else ok true

-- One round of the first loop: whether the task is changed.
unfoldable pub judge_task : Plan → Dict Task → RunState → String → String → Task → Result Bool
unfolding judge_difference
judge_task current after_map s requester task_id before = do
  after ← or_raise (lookup task_id after_map) (key_error task_id)
  raw ← or_raise (lookup task_id s.task_states) (key_error task_id)
  raw_state ← coerce_task_state raw
  if same_task before after
      then ok false
      else judge_difference current requester raw_state before after task_id

unfoldable pub changed_tasks :
    Plan → Dict Task → RunState → String → Dict Task → Result (List String)
unfolding judge_task
changed_tasks current after_map s requester [] = ok []
changed_tasks current after_map s requester ((task_id, before) ∷ m) = do
  is_changed ← judge_task current after_map s requester task_id before
  rest ← changed_tasks current after_map s requester m
  ok (if is_changed then task_id ∷ rest else rest)

-- for child in dependents[parent]: if child not in affected: ...
abbrev pub add_children : List String → List String → List String → List String × List String
add_children [] affected frontier = (affected, frontier)
add_children (c ∷ cs) affected frontier =
    let seen = elem c affected in
    add_children cs (if seen then affected else c ∷ affected)
      (if seen then frontier else c ∷ frontier)

unfoldable pub spread : ℕ → Dict (List String) → List String → List String → Result (List String)
spread fuel dependents affected [] = ok affected
spread zero dependents affected (parent ∷ frontier) = ok affected
spread (suc fuel) dependents affected (parent ∷ frontier) = do
  children ← or_raise (lookup parent dependents) (key_error parent)
  let next = add_children children affected frontier
  spread fuel dependents next.0 next.1

unfoldable pub affected_tasks : Plan → List String → String → Result (List String)
unfolding spread
affected_tasks candidate changed requester = do
  dependents ← add_dependents candidate.tasks (no_dependents candidate.tasks [])
  let affected = if elem requester changed then changed else requester ∷ changed
  spread (length affected + length candidate.tasks) dependents affected affected

-- The states before any task is made ready.
unfoldable pub carried_states :
    Dict Task → RunState → List String → List Task → Dict String → Result (Dict String)
carried_states before_map s affected [] states = ok states
carried_states before_map s affected (t ∷ ts) states =
    if not (elem t.id (keys before_map)) || elem t.id affected
    then carried_states before_map s affected ts (insert t.id (value waiting) states)
    else (do
      raw ← or_raise (lookup t.id s.task_states) (key_error t.id)
      carried_states before_map s affected ts (insert t.id raw states))

unfoldable pub open_task : Plan → Dict String → String → Result (Dict String)
open_task candidate states task_id = do
  raw ← or_raise (lookup task_id states) (key_error task_id)
  if not (raw == value waiting) then ok states else (do
    eligible ← dependencies_eligible candidate task_id states
    ok (if eligible then insert task_id (value ready) states else states))

unfoldable pub open_tasks : Plan → Dict String → List String → Result (Dict String)
unfolding open_task
open_tasks candidate states [] = ok states
open_tasks candidate states (k ∷ order) = do
  next ← open_task candidate states k
  open_tasks candidate next order

unfoldable pub rebuilt_states : Plan → Dict Task → RunState → List String → Result (Dict String)
unfolding carried_states open_tasks
rebuilt_states candidate before_map s affected = do
  carried ← carried_states before_map s affected candidate.tasks []
  order ← topological_order candidate.tasks
  opened ← open_tasks candidate carried order
  validate_task_states candidate opened true

-- {task.id: int(counters.get(task.id, 0)) for task in candidate.tasks}
unfoldable pub carried_counters : Dict ℕ → List Task → Dict ℕ → Dict ℕ
carried_counters counters [] m = m
carried_counters counters (t ∷ ts) m =
    carried_counters counters ts (insert t.id (get_or 0 (lookup t.id counters)) m)

abbrev pub filter_entries {ℓ} : {V : Type ℓ} → (String → Bool) → Dict V → Dict V
filter_entries keep [] = []
filter_entries keep ((k, v) ∷ m) =
    let rest = filter_entries keep m in if keep k then (k, v) ∷ rest else rest

abbrev pub holds : TaskState → Dict String → String → Bool
holds state states k = elim (lookup k states) [ none ↦ false | some raw ↦ raw == value state ]

-- The ages: every ready task that has none gets the next number.
unfoldable pub age_ready : ℕ → Dict ℕ → List String → ℕ × Dict ℕ
age_ready sequence ages [] = (sequence, ages)
age_ready sequence ages (k ∷ ks) =
    let aged = elem k (keys ages) in
    age_ready (if aged then sequence else suc sequence)
      (if aged then ages else insert k (suc sequence) ages) ks

abbrev pub applied : ℕ → String → PlanChange → PlanChange
applied version at c = record c {
  status = "APPLIED";
  applied_graph_version = some version;
  completed_at = some at;
}

-- The record of the change is the one object in the list that has its id.
unfoldable pub apply_record : ℕ → ℕ → String → List PlanChange → List PlanChange
apply_record n version at [] = []
apply_record n version at (c ∷ cs) =
    let rest = apply_record n version at cs in
    if has_id n c then applied version at c ∷ rest else c ∷ rest

unfoldable pub check_versions : Plan → Plan → RunState → String → Result (Unit {0})
unfolding task_map
check_versions current candidate s requester = do
  ensure (nat_eq s.graph_version current.graph_version) plan_change_state_conflict
  ensure (nat_eq candidate.graph_version (current.graph_version + 1)) plan_change_conflict
  ensure (elem requester (keys (task_map current)) && elem requester (keys (task_map candidate)))
      plan_change_conflict
  ensure (all (λ k. elem k (keys (task_map candidate))) (keys (task_map current)))
      plan_change_conflict
  ensure (all (λ k. k == requester) s.active_task_ids) plan_change_state_conflict
  ensure (is_empty s.resource_locks) plan_change_state_conflict

-- The assignments that follow the new states.
unfoldable pub apply_states : Plan → RunState → List String → Dict String → RunState
unfolding carried_counters age_ready
apply_states candidate s affected states =
    let now_ready = filter_by (holds ready states) (ids candidate.tasks) in
    let kept = filter_entries (λ k. elem k now_ready && not (elem k affected)) s.task_ready_since in
    let aged = age_ready s.scheduler_sequence kept now_ready in
    record s {
      task_states = states;
      active_task_ids = [];
      graph_version = candidate.graph_version;
      execution_strategy = candidate.execution_strategy;
      max_parallel_workers = candidate.max_parallel_workers;
      computer_use_slots = candidate.computer_use_slots;
      task_attempts = carried_counters s.task_attempts candidate.tasks [];
      task_revisions = carried_counters s.task_revisions candidate.tasks [];
      task_retry_at = filter_entries (holds retry_wait states) s.task_retry_at;
      scheduler_sequence = aged.0;
      task_ready_since = aged.1;
      active_plan_change_id = none;
      status = if is_empty now_ready then "WAITING" else "READY";
      phase = "PLAN_CHANGE_APPLIED";
    }

unfoldable pub reconcile_plan_change_state :
    Plan → Plan → RunState → ℕ → String → String → Result RunState
unfolding check_versions changed_tasks affected_tasks rebuilt_states apply_states apply_record
reconcile_plan_change_state current candidate s request_id requester at = do
  check_versions current candidate s requester
  changed ← changed_tasks current (task_map candidate) s requester (task_map current)
  affected ← affected_tasks candidate changed requester
  states ← rebuilt_states candidate (task_map current) s affected
  let next = apply_states candidate s affected states
  found ← active_plan_change next (some request_id)
  let recorded = record next {
    plan_changes = apply_record request_id candidate.graph_version at next.plan_changes;
  }
  ok (append_resilience_event recorded "plan_change_applied" (some requester) (some request_id))
