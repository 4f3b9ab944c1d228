-- ===== src/Scheduler/Ready.antt =====
-- Readiness (compute_ready_task_ids, reconcile_ready_tasks, _validate_scheduler_state).
pub mod Marking
pub mod Ages
use codex_autopilot.Prelude.{
  ℕ, zero, suc, ◌+◌, ◌-◌, ◌*◌, ◌/◌, ◌≤◌, ◌<◌, min, max, String, ◌≡◌, refl, sym, ap, ◌∙◌, subst, ◌≢◌,
  ◌↔◌, ◌⊎◌, inl, inr, Bool, true, false, not, ◌&&◌, ◌||◌, Option, none, some, List, [], ◌∷◌, ◌++◌,
  map, arith, eq_iff, ltb, leb, nat_eq, ◌==◌, if◌then◌else◌, ==_refl, Bool-cases, Option-cases,
  length, filter_by, any, all, All, All-append, All-map, All-elem, elem, IsDistinct, Dict, lookup,
  insert, keys, get_or, is_some, lookup-insert, lookup-insert_self, lookup-insert_ne, elem-keys,
  elem-keys-insert, All-lookup, All-insert, Result, ok, err, ◌>>=◌, ◌>>◌, ensure, or_raise,
  >>=-eq-ok, ensure-eq-ok, or_raise-eq-ok, ensure-bind-eq-ok, Result-cases, length-append, is_empty,
  filter_by_empty, filter_by_none, empty_of_is_empty, keys-insert_old, key_error,
  unknown_task_state, unknown_task_id, scheduler_graph_mismatch, active_mismatch, ready_age_unknown,
  serial_with_many_active, recursion_error, bad_availability, model_routing, sort_by, insert_sorted,
  IsSorted, sort_by-perm, sort_by-IsSorted, All-sort_by, All-insert_sorted,
}
use codex_autopilot.Plan.{Task, Plan, ids}
use codex_autopilot.PlanGate.{require_plan_verified}
use codex_autopilot.RunState.{RunState}
use codex_autopilot.TaskState.{
  TaskState, waiting, ready, value, coerce_task_state, among, active_task_states,
  dependencies_eligible, validate_task_states,
}

-- One round of the loop: whether the task is WAITING or READY and its dependencies are VERIFIED.
unfoldable pub is_candidate : Plan → Dict String → Task → Result Bool
is_candidate plan states t = do
  raw ← or_raise (lookup t.id states) (key_error t.id)
  state ← coerce_task_state raw
  if among state (waiting ∷ ready ∷ []) then dependencies_eligible plan t.id states else ok false

unfoldable pub ready_from : Plan → Dict String → List Task → Result (List String)
ready_from plan states [] = ok []
ready_from plan states (t ∷ ts) = do
  candidate ← is_candidate plan states t
  rest ← ready_from plan states ts
  ok (if candidate then t.id ∷ rest else rest)

unfoldable pub compute_ready_task_ids : Plan → Dict String → Result (List String)
compute_ready_task_ids plan states = do
  normalized ← validate_task_states plan states true
  ready_from plan normalized plan.tasks

-- The ids whose state is among those given.
in_states : List TaskState → Dict String → Result (List String)
in_states wanted [] = ok []
in_states wanted ((k, raw) ∷ m) = do
  s ← coerce_task_state raw
  rest ← in_states wanted m
  ok (if among s wanted then k ∷ rest else rest)

-- set(xs) == set(ys)
abbrev same_set : List String → List String → Bool
same_set xs ys = all (λ x. elem x ys) xs && all (λ y. elem y xs) ys

unfoldable pub validate_scheduler_state : Plan → RunState → Result (Unit {0})
unfolding in_states
validate_scheduler_state plan state = do
  ensure (nat_eq state.graph_version plan.graph_version) scheduler_graph_mismatch
  normalized ← validate_task_states plan state.task_states true
  active ← in_states active_task_states normalized
  ensure (same_set active state.active_task_ids) active_mismatch
  ensure (all (λ k. elem k (keys normalized)) (keys state.task_ready_since)) ready_age_unknown

-- The loop that turns the eligible WAITING tasks READY.
unfoldable pub mark_ready : List String → Dict String → Dict String
mark_ready [] states = states
mark_ready (k ∷ ks) states =
    mark_ready ks (
      if get_or "" (lookup k states) == value waiting
      then insert k (value ready) states
      else states)

abbrev pub is_ready : Dict String → String → Bool
is_ready states k = get_or "" (lookup k states) == value ready

-- {task_id: sequence for ... if task_id in ready_set}
unfoldable pub kept_ages : List String → Dict ℕ → Dict ℕ
kept_ages ready_ids [] = []
kept_ages ready_ids ((k, age) ∷ m) =
    let rest = kept_ages ready_ids m in if elem k ready_ids then (k, age) ∷ rest else rest

-- One round of the loop that gives a new READY task the next sequence number.
unfoldable pub give_age : String → Dict ℕ × ℕ → Dict ℕ × ℕ
give_age k (ages, sequence) =
    if elem k (keys ages) then (ages, sequence) else (insert k (sequence + 1) ages, sequence + 1)

unfoldable pub give_ages : List String → Dict ℕ × ℕ → Dict ℕ × ℕ
give_ages [] aged = aged
give_ages (k ∷ ks) aged = give_ages ks (give_age k aged)

unfoldable pub reconciled : Plan → RunState → Dict String → List String → RunState × List String
reconciled plan state normalized eligible =
    let states = mark_ready eligible normalized in
    let ready_ids = filter_by (is_ready states) (ids plan.tasks) in
    let (ages, sequence) =
      give_ages ready_ids (kept_ages ready_ids state.task_ready_since, state.scheduler_sequence) in
    (
      record state { task_states = states; task_ready_since = ages; scheduler_sequence = sequence },
      ready_ids,
    )

module _ (digest : Plan → String) where
  unfoldable pub reconcile_ready_tasks : Plan → RunState → Result (RunState × List String)
  reconcile_ready_tasks plan state = do
    require_plan_verified digest plan state.plan_verification
    validate_scheduler_state plan state
    normalized ← validate_task_states plan state.task_states true
    eligible ← compute_ready_task_ids plan normalized
    ok (reconciled plan state normalized eligible)
