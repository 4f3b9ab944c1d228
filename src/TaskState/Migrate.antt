-- ===== src/TaskState/Migrate.antt =====
-- The states of a v0.8 run, which had one cursor over its tasks (migrate_v08_task_states of
-- src/codex_autopilot/task_state.py). The old JSON object is a record of what is read from it: an
-- entry of the history that is no object is left out, and an index that is negative or no number, which counts as 0, is 0.
pub mod Verified
mod Examples
use codex_autopilot.Prelude.{
  ℕ, zero, suc, ◌+◌, ◌-◌, ◌*◌, ◌/◌, ◌≤◌, ◌<◌, min, max, String, ◌≡◌, refl, sym, ap, ◌∙◌, subst, ◌≢◌,
  ◌↔◌, ◌⊎◌, inl, inr, Bool, true, false, not, ◌&&◌, ◌||◌, Option, none, some, List, [], ◌∷◌, ◌++◌,
  map, arith, eq_iff, ltb, leb, nat_eq, ◌==◌, if◌then◌else◌, ==_refl, Bool-cases, Option-cases,
  length, filter_by, any, all, All, All-append, All-map, All-elem, elem, IsDistinct, Dict, lookup,
  insert, keys, get_or, is_some, lookup-insert, lookup-insert_self, lookup-insert_ne, elem-keys,
  elem-keys-insert, All-lookup, All-insert, Result, ok, err, ◌>>=◌, ◌>>◌, ensure, or_raise,
  >>=-eq-ok, ensure-eq-ok, or_raise-eq-ok, ensure-bind-eq-ok, Result-cases, length-append, is_empty,
  filter_by_empty, filter_by_none, empty_of_is_empty, keys-insert_old, All-of_sort_by, bind-ok,
  ok-injective, same_texts, delete, append_nil, All-zip, append_empty, map_empty, filter_by_nil,
  All-snoc, count, count_absent, count_distinct, elem-append, filter_by_passes, elem-filter_by,
  All-of_elem, text_less, then_less, then_less_asym, then_less_trans, then_less_trans_down,
  text_less_asym, text_less_trans, invalid_state, plan_change_conflict, plan_change_state_conflict,
  plan_change_protocol, bad_observation, graph_cycle, bad_resource_state, bad_lock_owner,
  bad_execution_mode, token_is_bound, bad_claim, key_error, unknown_task_state, unknown_task_id,
  scheduler_graph_mismatch, active_mismatch, ready_age_unknown, serial_with_many_active,
  recursion_error, bad_availability, model_routing, sort_by, insert_sorted, IsSorted, sort_by-perm,
  sort_by-IsSorted, All-sort_by, All-insert_sorted,
}
use codex_autopilot.Plan.{Task, Plan, ids}
use codex_autopilot.TaskState.{
  TaskState, waiting, ready, running, retry_wait, verified, blocked, value, dependencies_eligible,
  validate_task_states,
}

pub record HistoryEntry : Type 0 where
  pub milestone_id : Option String
  pub status : String

pub record LegacyState : Type 0 where
  pub milestone_index : ℕ
  pub worker_history : List HistoryEntry
  pub status : String
  pub phase : String
  pub milestone_id : Option String

-- tasks[:n]
abbrev pub first_ids : ℕ → List Task → List String
first_ids n [] = []
first_ids zero (t ∷ ts) = []
first_ids (suc n) (t ∷ ts) = t.id ∷ first_ids n ts

abbrev pub nth_id : ℕ → List Task → Option String
nth_id n [] = none
nth_id zero (t ∷ ts) = some t.id
nth_id (suc n) (t ∷ ts) = nth_id n ts

-- max(0, min(index, len(tasks) - 1))
abbrev pub cursor : LegacyState → List Task → ℕ
cursor legacy tasks = min legacy.milestone_index (length tasks - 1)

abbrev pub ended : String → Bool
ended status = status == "ROTATE" || status == "DONE"

abbrev pub history_ids : List HistoryEntry → List String
history_ids [] = []
history_ids (e ∷ es) =
    let rest = history_ids es in
    elim e.milestone_id [ none ↦ rest | some k ↦ if ended e.status then k ∷ rest else rest ]

unfoldable pub completed_ids : LegacyState → List Task → List String
completed_ids legacy tasks =
    history_ids legacy.worker_history
    ++ first_ids (cursor legacy tasks) tasks
    ++ (if legacy.status == "DONE" then ids tasks else [])

unfoldable pub all_waiting : List Task → Dict String → Dict String
all_waiting [] states = states
all_waiting (t ∷ ts) states = all_waiting ts (insert t.id (value waiting) states)

unfoldable pub mark_verified : List String → Dict String → Dict String
mark_verified [] states = states
mark_verified (k ∷ ks) states =
    mark_verified ks (if elem k (keys states) then insert k (value verified) states else states)

abbrev pub running_phases : List String
running_phases =
    "CREATING_THREAD" ∷ "CLAIMING_PROJECT_SLOT" ∷ "PREPARING_PROJECT_SLOT" ∷ "THREAD_CREATED"
    ∷ "VERIFYING_MEMORY_MCP" ∷ "STARTING_TURN" ∷ "RUNNING_TURN" ∷ []

abbrev pub current_state : LegacyState → TaskState
current_state legacy =
    if legacy.phase == "WAITING_RATE_LIMIT"
    then retry_wait
    else if legacy.status == "BLOCKED"
    then blocked
    else if elem legacy.phase running_phases
    then running
    else ready

abbrev pub known_id : Dict String → Option String → Option String
known_id states none = none
known_id states (some k) = if elem k (keys states) then some k else none

unfoldable pub current_id : LegacyState → List Task → Dict String → Result String
current_id legacy tasks states = elim (known_id states legacy.milestone_id) [
  | some k ↦ ok k
  | none ↦ or_raise (nth_id (cursor legacy tasks) tasks) (key_error "")
]

abbrev pub is_held : TaskState → Dict String → String → Bool
is_held state states k = get_or "" (lookup k states) == value state

unfoldable pub place_cursor : LegacyState → List Task → Dict String → Result (Dict String)
unfolding current_id
place_cursor legacy tasks states = if legacy.status == "DONE" then ok states else (do
  k ← current_id legacy tasks states
  ok (if is_held verified states k then states else insert k (value (current_state legacy)) states))

-- The last loop: the first task that may start, or each of them.
unfoldable pub open_legacy : Plan → List Task → Dict String → Result (Dict String)
open_legacy plan [] states = ok states
open_legacy plan (t ∷ ts) states = elim (is_held waiting states t.id) [
  | false ↦ open_legacy plan ts states
  | true ↦ do
    eligible ← dependencies_eligible plan t.id states
    let opened = insert t.id (value ready) states
    elim eligible [
      | false ↦ open_legacy plan ts states
      | true ↦ elim plan.legacy_serial [ true ↦ ok opened | false ↦ open_legacy plan ts opened ]
    ]
]

unfoldable pub migrate_v08_task_states : Plan → LegacyState → Result (Dict String)
unfolding completed_ids all_waiting mark_verified place_cursor open_legacy
migrate_v08_task_states plan legacy = do
  let states = mark_verified (completed_ids legacy plan.tasks) (all_waiting plan.tasks [])
  placed ← place_cursor legacy plan.tasks states
  opened ← open_legacy plan plan.tasks placed
  validate_task_states plan opened true
