-- ===== src/StateStore.antt =====
-- Reading and writing the run-state file (StateStore.load, StateStore.save and _validate_state of
-- src/codex_autopilot/run_state.py). The checks of JSON types are the types here, the schema version
-- is the current one, and the checks of fields that `RunState` has not are left out.
pub mod Accepts
mod Examples
use codex_autopilot.Prelude.{
  ℕ, zero, suc, ◌+◌, ◌-◌, ◌*◌, ◌/◌, ◌≤◌, ◌<◌, min, max, String, ◌≡◌, refl, sym, ap, ◌∙◌, subst, ◌≢◌,
  ◌↔◌, ◌⊎◌, inl, inr, Bool, true, false, not, ◌&&◌, ◌||◌, Option, none, some, List, [], ◌∷◌, ◌++◌,
  map, arith, eq_iff, ltb, leb, nat_eq, ◌==◌, if◌then◌else◌, ==_refl, Bool-cases, Option-cases,
  length, filter_by, any, all, All, All-append, All-map, All-elem, elem, IsDistinct, Dict, lookup,
  insert, keys, get_or, is_some, lookup-insert, lookup-insert_self, lookup-insert_ne, elem-keys,
  elem-keys-insert, All-lookup, All-insert, Result, ok, err, ◌>>=◌, ◌>>◌, ensure, or_raise,
  >>=-eq-ok, ensure-eq-ok, or_raise-eq-ok, ensure-bind-eq-ok, Result-cases, length-append, is_empty,
  filter_by_empty, filter_by_none, empty_of_is_empty, keys-insert_old, All-of_sort_by, bind-ok,
  same_texts, delete, append_nil, All-zip, append_empty, map_empty, filter_by_nil, All-snoc, count,
  count_absent, count_distinct, elem-append, filter_by_passes, elem-filter_by, All-of_elem,
  text_less, then_less, then_less_asym, then_less_trans, then_less_trans_down, text_less_asym,
  text_less_trans, invalid_state, plan_change_conflict, plan_change_state_conflict,
  plan_change_protocol, bad_observation, graph_cycle, bad_resource_state, bad_lock_owner,
  bad_execution_mode, token_is_bound, bad_claim, key_error, unknown_task_state, unknown_task_id,
  scheduler_graph_mismatch, active_mismatch, ready_age_unknown, serial_with_many_active,
  recursion_error, bad_availability, model_routing, sort_by, insert_sorted, IsSorted, sort_by-perm,
  sort_by-IsSorted, All-sort_by, All-insert_sorted,
}
use codex_autopilot.Usage.{Limits, missing}
use codex_autopilot.RunState.{RunState, LifecycleEvent, WorkerSession, PlanChange, ResilienceEvent}
use codex_autopilot.TaskState.{coerce_task_state, normalize, among, active_task_states}
use codex_autopilot.Resources.{DurableResourceLock}
use codex_autopilot.Resources.Journal.{
  distinct, has_number, distinct_numbers, validate_persisted_resource_state,
}
use codex_autopilot.Resources.Normalize.{Host}

abbrev pub is_named : String → Bool
is_named t = not (t == "")

abbrev pub names : Option String → Bool
names none = false
names (some t) = is_named t

-- The id is a task's, where the state knows tasks at all.
abbrev pub knows : Dict String → String → Bool
knows task_states k = is_empty task_states || elem k (keys task_states)

abbrev pub execution_strategies : List String
execution_strategies = "serial" ∷ "parallel" ∷ "auto" ∷ []

-- Graph version, strategy and the two limits.
unfoldable pub check_limits : RunState → Result (Unit {0})
check_limits s = do
  ensure (leb 1 s.graph_version) invalid_state
  ensure (elem s.execution_strategy execution_strategies) invalid_state
  ensure (leb 1 s.max_parallel_workers && leb 1 s.computer_use_slots) invalid_state

-- An active task stands in the map, in an active state.
unfoldable pub is_active : Dict String → String → Bool
is_active task_states k = elim (lookup k task_states) [
  | none ↦ false
  | some raw ↦ elim (coerce_task_state raw) [
    | ok state ↦ among state active_task_states
    | err e ↦ false
  ]
]

unfoldable pub check_tasks : RunState → Result (Unit {0})
check_tasks s = do
  ensure (all is_named (keys s.task_states)) invalid_state
  normalized ← normalize s.task_states
  ensure (all is_named s.active_task_ids && distinct s.active_task_ids) invalid_state
  ensure (all (is_active s.task_states) s.active_task_ids) invalid_state
  ensure (not (s.execution_strategy == "serial" && ltb 1 (length s.active_task_ids))) invalid_state
  ensure (leb (length s.active_task_ids) s.max_parallel_workers) invalid_state

abbrev pub values : Dict ℕ → List ℕ
values [] = []
values ((k, n) ∷ m) = n ∷ values m

-- The ages: of known tasks, positive, unique, and none ahead of the counter.
unfoldable pub check_ages : RunState → Result (Unit {0})
check_ages s = do
  ensure (all (λ k. elem k (keys s.task_states)) (keys s.task_ready_since)) invalid_state
  ensure (all (λ n. leb 1 n) (values s.task_ready_since)) invalid_state
  ensure (distinct_numbers (values s.task_ready_since)) invalid_state
  ensure (all (λ n. leb n s.scheduler_sequence) (values s.task_ready_since)) invalid_state

abbrev pub owned : RunState → DurableResourceLock → Bool
owned s l = elem l.owner.task_id (keys s.task_states) && l.owner.run_id == s.run_id

unfoldable pub check_locks_of : Host → RunState → Result (Unit {0})
check_locks_of host s = do
  locks ←
      validate_persisted_resource_state host.fnmatchcase host.casefold s.resource_locks
        s.resource_lock_journal s.resource_journal_sequence
  ensure (is_empty s.task_states || all (owned s) locks) invalid_state

-- A tally by task: the ids are named and known.
abbrev pub is_tally : RunState → Dict ℕ → Bool
is_tally s m = all (λ k. is_named k && knows s.task_states k) (keys m)

unfoldable pub check_tallies : RunState → Result (Unit {0})
check_tallies s = do
  ensure (is_tally s s.task_attempts) invalid_state
  ensure (is_tally s s.task_revisions) invalid_state
  ensure (is_tally s s.task_rehires) invalid_state

-- [item["sequence"] ...] == list(range(n, n + length))
abbrev pub lifecycle_counts : ℕ → List LifecycleEvent → Bool
lifecycle_counts n [] = true
lifecycle_counts n (e ∷ es) = nat_eq e.sequence n && lifecycle_counts (suc n) es

unfoldable pub check_lifecycle : RunState → Result (Unit {0})
check_lifecycle s = do
  ensure
      (lifecycle_counts 1 s.lifecycle_journal
        && nat_eq (length s.lifecycle_journal) s.lifecycle_journal_sequence)
      invalid_state
  ensure (all (λ e. is_named e.event && is_named e.task_id) s.lifecycle_journal) invalid_state

abbrev pub session_kinds : List String
session_kinds =
    "worker" ∷ "implementation" ∷ "verifier" ∷ "revision" ∷ "replanner" ∷ "plan_verifier"
    ∷ "pipeline_engineer" ∷ "screening" ∷ []

abbrev pub pending_statuses : List String
pending_statuses =
    "RESERVED" ∷ "CREATE_REQUESTED" ∷ "RELAYING" ∷ "CREATED" ∷ "PREPARING" ∷ "PREPARED"
    ∷ "SEND_RELAYING" ∷ "ACTIVE" ∷ "AMBIGUOUS" ∷ []

abbrev pub is_pending : WorkerSession → Bool
is_pending w = elem w.status pending_statuses

unfoldable pub check_session : RunState → WorkerSession → Bool
check_session s w =
    is_named w.reservation_token
    && is_named w.operation_id
    && is_named w.task_id
    && is_named w.kind
    && is_named w.status
    && knows s.task_states w.task_id
    && leb 1 w.attempt
    && elem w.kind session_kinds
    && not (is_some w.relay_owner_thread_id && not (names w.relay_owner_thread_id))
    && (not (is_pending w) || names w.relay_owner_thread_id)

abbrev pub session_tokens : List WorkerSession → List String
session_tokens [] = []
session_tokens (w ∷ ws) = w.reservation_token ∷ session_tokens ws

abbrev pub session_operations : List WorkerSession → List String
session_operations [] = []
session_operations (w ∷ ws) = w.operation_id ∷ session_operations ws

-- The tasks that a pending session executes; the engineer on call executes none.
abbrev pub pending_tasks : List WorkerSession → List String
pending_tasks [] = []
pending_tasks (w ∷ ws) =
    let rest = pending_tasks ws in
    if is_pending w && not (w.kind == "pipeline_engineer") then w.task_id ∷ rest else rest

unfoldable pub check_sessions : RunState → Result (Unit {0})
check_sessions s = do
  ensure (all (check_session s) s.worker_sessions) invalid_state
  ensure
      (distinct (session_tokens s.worker_sessions)
        && distinct (session_operations s.worker_sessions))
      invalid_state
  ensure (distinct (pending_tasks s.worker_sessions)) invalid_state
  ensure (all (knows s.task_states) (keys s.task_retry_at)) invalid_state

abbrev pub open_statuses : List String
open_statuses =
    "DRAINING" ∷ "REPLANNER_RESERVED" ∷ "REPLANNING" ∷ "PLAN_VERIFICATION_REQUIRED"
    ∷ "PLAN_VERIFYING" ∷ []

abbrev pub closed_statuses : List String
closed_statuses = "APPLIED" ∷ "REJECTED" ∷ "FAILED" ∷ []

-- An id is the number that follows "PC" in the source's text, where leading zeros are read away.
unfoldable pub check_change : RunState → PlanChange → Bool
check_change s c =
    is_named c.requester_task_id
    && is_named c.requester_session_token
    && is_named c.created_at
    && (elem c.status open_statuses || elem c.status closed_statuses)
    && knows s.task_states c.requester_task_id
    && leb 1 c.base_graph_version

abbrev pub change_ids : List PlanChange → List ℕ
change_ids [] = []
change_ids (c ∷ cs) = c.id ∷ change_ids cs

-- The ids of the changes that are under way.
abbrev pub open_changes : List PlanChange → List ℕ
open_changes [] = []
open_changes (c ∷ cs) =
    let rest = open_changes cs in if elem c.status open_statuses then c.id ∷ rest else rest

-- open == [active] or open == []
abbrev pub is_only : Option ℕ → List ℕ → Bool
is_only none [] = true
is_only (some n) (m ∷ []) = nat_eq n m
is_only _ _ = false

unfoldable pub check_changes : RunState → Result (Unit {0})
check_changes s = do
  ensure (all (check_change s) s.plan_changes) invalid_state
  ensure (distinct_numbers (change_ids s.plan_changes)) invalid_state
  ensure (all (λ n. leb n s.plan_change_sequence) (change_ids s.plan_changes)) invalid_state
  ensure (is_only s.active_plan_change_id (open_changes s.plan_changes)) invalid_state

abbrev pub resilience_counts : ℕ → List ResilienceEvent → Bool
resilience_counts n [] = true
resilience_counts n (e ∷ es) = nat_eq e.sequence n && resilience_counts (suc n) es

unfoldable pub check_resilience : RunState → Result (Unit {0})
check_resilience s = do
  ensure
      (resilience_counts 1 s.resilience_journal
        && nat_eq (length s.resilience_journal) s.resilience_journal_sequence)
      invalid_state
  ensure (all (λ e. is_named e.event) s.resilience_journal) invalid_state

-- _validate_state
unfoldable pub validate_state : Host → RunState → Result (Unit {0})
validate_state host s = do
  check_limits s
  check_tasks s
  check_ages s
  check_locks_of host s
  check_tallies s
  check_lifecycle s
  check_sessions s
  check_changes s
  check_resilience s

-- The rate-limit snapshot has a file of its own, and what stands there replaces the state's.
unfoldable pub with_limits : Limits → RunState → RunState
with_limits missing s = s
with_limits limits s = record s { rate_limits = limits }

-- StateStore.load, for a file that is there, and the rate-limit file (`missing` when there is none)
unfoldable pub load : Host → RunState → Limits → Result RunState
load host file limits = do let state = with_limits limits file; validate_state host state; ok state

-- StateStore.save: what the file then holds. The JSON that stands between a state and the file,
-- updated_at and the redrawn board are left out: what is read is what was written.
unfoldable pub save : Host → RunState → Result RunState
save host state = do validate_state host state; ok state
