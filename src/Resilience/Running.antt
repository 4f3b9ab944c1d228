-- ===== src/Resilience/Running.antt =====
-- Reconciling the workers that a crash left behind with what the host says of them
-- (reconcile_running_work). The sessions are objects that the list and the dictionary of pending
-- ones share: here an entry of the dictionary is the session's place in the list and what it was.
pub mod Follows
pub mod Retires
pub mod Silence
use Prim.Native.String.{◌++◌ as ◌⊕◌}
use codex_autopilot.Prelude.{
  ℕ, zero, suc, ◌+◌, ◌-◌, ◌*◌, ◌/◌, ◌≤◌, ◌<◌, min, max, String, ◌≡◌, refl, sym, ap, ◌∙◌, subst, ◌≢◌,
  ◌↔◌, ◌⊎◌, inl, inr, Bool, true, false, not, ◌&&◌, ◌||◌, Option, none, some, List, [], ◌∷◌, ◌++◌,
  map, arith, eq_iff, ltb, leb, nat_eq, ◌==◌, if◌then◌else◌, ==_refl, Bool-cases, Option-cases,
  length, filter_by, any, all, All, All-append, All-map, All-elem, elem, IsDistinct, Dict, lookup,
  insert, keys, get_or, is_some, lookup-insert, lookup-insert_self, lookup-insert_ne, elem-keys,
  elem-keys-insert, All-lookup, All-insert, Result, ok, err, ◌>>=◌, ◌>>◌, ensure, or_raise,
  >>=-eq-ok, ensure-eq-ok, or_raise-eq-ok, ensure-bind-eq-ok, Result-cases, length-append, is_empty,
  filter_by_empty, filter_by_none, empty_of_is_empty, keys-insert_old, All-of_sort_by, bind-ok,
  same_texts, delete, append_nil, All-zip, append_empty, map_empty, filter_by_nil, All-snoc, count,
  count_absent, count_distinct, elem-append, filter_by_passes, elem-filter_by, All-of_elem,
  text_less, then_less, then_less_asym, then_less_trans, then_less_trans_down, text_less_asym,
  text_less_trans, invalid_state, plan_change_conflict, plan_change_state_conflict,
  plan_change_protocol, bad_observation, graph_cycle, bad_resource_state, bad_lock_owner,
  bad_execution_mode, token_is_bound, bad_claim, key_error, unknown_task_state, unknown_task_id,
  scheduler_graph_mismatch, active_mismatch, ready_age_unknown, serial_with_many_active,
  recursion_error, bad_availability, model_routing, sort_by, insert_sorted, IsSorted, sort_by-perm,
  sort_by-IsSorted, All-sort_by, All-insert_sorted,
}
use codex_autopilot.Plan.{Plan}
use codex_autopilot.TaskState.{
  coerce_task_state, is, among, value, retry_wait, active_task_states, validate_task_states,
}
use codex_autopilot.RunState.{RunState, WorkerSession}
use codex_autopilot.StateStore.{is_named, names, is_pending}
use codex_autopilot.Resources.{DurableResourceLock}
use codex_autopilot.Resources.Normalize.{Host}
use codex_autopilot.Resources.Locks.{release_resources_in_state}
use codex_autopilot.Resilience.{append_resilience_event}

abbrev pub authoritative_worker_states : List String
authoritative_worker_states = "active" ∷ "terminal" ∷ "absent" ∷ "unknown" ∷ []

unfoldable pub check_observations : Dict String → Result (Unit {0})
check_observations [] = ok tt
check_observations ((token, observed) ∷ m) = do
  ensure (is_named token && elem observed authoritative_worker_states) bad_observation
  check_observations m

-- item.get("resource_ownership_token") or item.get("reservation_token") or ""
unfoldable pub session_token : WorkerSession → String
session_token w =
    if names w.resource_ownership_token
    then get_or "" w.resource_ownership_token
    else w.reservation_token

-- The pending sessions from the place `n` on, by token. Of two with one token the later stands.
unfoldable pub pending_from :
    ℕ → List WorkerSession → Dict (ℕ × WorkerSession) → Dict (ℕ × WorkerSession)
unfolding session_token
pending_from n [] found = found
pending_from n (w ∷ ws) found =
    pending_from (suc n) ws (if is_pending w then insert (session_token w) (n, w) found else found)

unfoldable pub lock_ids_by_token : List DurableResourceLock → Dict String → Dict String
lock_ids_by_token [] found = found
lock_ids_by_token (l ∷ ls) found =
    lock_ids_by_token ls (insert l.owner.ownership_token l.lock_id found)

-- The item at a place, replaced by what becomes of it.
unfoldable pub change_at :
    ℕ → (WorkerSession → WorkerSession) → List WorkerSession → List WorkerSession
change_at n f [] = []
change_at zero f (w ∷ ws) = f w ∷ ws
change_at (suc n) f (w ∷ ws) = w ∷ change_at n f ws

abbrev pub retired : String → WorkerSession → WorkerSession
retired reason w = record w { status = "RETRY_WAIT"; failure_reason = some reason }

-- The state and RuntimeReconciliation, as they grow.
pub record Reconciliation : Type 0 where
  pub state : RunState
  pub retried_task_ids : List String
  pub retained_task_ids : List String
  pub unresolved_task_ids : List String
  pub released_lock_ids : List String

abbrev pub observed_of : Dict String → String → String
observed_of observations token = get_or "unknown" (lookup token observations)

abbrev pub on_call : WorkerSession → Bool
on_call w = w.kind == "pipeline_engineer"

-- The task of a dead worker waits for a retry, and no later than it waited before.
unfoldable pub retire_task : RunState → ℕ → WorkerSession → String → ℕ → RunState
unfolding change_at
retire_task s place w observed retry_after = record s {
  task_states = insert w.task_id (value retry_wait) s.task_states;
  active_task_ids = filter_by (λ k. not (k == w.task_id)) s.active_task_ids;
  worker_sessions =
      change_at place (retired ("crash reconciliation observed worker " ⊕ observed))
        s.worker_sessions;
  task_retry_at =
      insert w.task_id (max (get_or 0 (lookup w.task_id s.task_retry_at)) retry_after)
        s.task_retry_at;
}

unfoldable pub retire_engineer : RunState → ℕ → String → RunState
unfolding change_at
retire_engineer s place observed = record s {
  worker_sessions =
      change_at place (retired ("crash reconciliation observed pipeline engineer " ⊕ observed))
        s.worker_sessions;
}

-- raw_state is RETRY_WAIT or in ACTIVE_TASK_STATES
unfoldable pub check_retirable : RunState → WorkerSession → Result (Unit {0})
check_retirable s w = do
  raw ← or_raise (lookup w.task_id s.task_states) (key_error w.task_id)
  raw_state ← coerce_task_state raw
  ensure (is raw_state retry_wait || among raw_state active_task_states) plan_change_conflict

abbrev pub release_reason : String → String
release_reason observed = "authoritative crash reconciliation: " ⊕ observed

module _ (host : Host) (observations : Dict String) (lock_ids : Dict String) (retry_after : ℕ)
    (at : String) where
  abbrev released_id : String → String
  released_id token = get_or token (lookup token lock_ids)

  abbrev pub with_released : Reconciliation → String → Bool → RunState → Reconciliation
  with_released r token released state = record r {
    state = state;
    released_lock_ids =
        if released then r.released_lock_ids ++ released_id token ∷ [] else r.released_lock_ids;
  }

  -- The engineer on call executes no task: only its session ends.
  unfoldable pub reconcile_engineer : Reconciliation → String → ℕ → String → Result Reconciliation
  unfolding retire_engineer
  reconcile_engineer r token place observed = do
    release ←
        release_resources_in_state host (retire_engineer r.state place observed) token
          (release_reason observed) at
    ok (with_released r token release.1 release.0)

  unfoldable pub reconcile_worker :
      Reconciliation → String → ℕ → WorkerSession → String → Result Reconciliation
  unfolding retire_task check_retirable
  reconcile_worker r token place w observed = do
    check_retirable r.state w
    release ←
        release_resources_in_state host (retire_task r.state place w observed retry_after) token
          (release_reason observed) at
    let state = append_resilience_event release.0 "worker_crash_reconciled" (some w.task_id) none
    ok (record (with_released r token release.1 state) {
      retried_task_ids = r.retried_task_ids ++ w.task_id ∷ [];
    })

  unfoldable pub reconcile_session :
      Reconciliation → String → ℕ × WorkerSession → Result Reconciliation
  unfolding reconcile_engineer reconcile_worker
  reconcile_session r token (place, w) =
      let observed = observed_of observations token in
      if observed == "active"
      then ok (record r { retained_task_ids = r.retained_task_ids ++ w.task_id ∷ [] })
      else if observed == "unknown"
      then ok (record r { unresolved_task_ids = r.unresolved_task_ids ++ w.task_id ∷ [] })
      else if on_call w
      then reconcile_engineer r token place observed
      else reconcile_worker r token place w observed

  unfoldable pub reconcile_sessions :
      Reconciliation → Dict (ℕ × WorkerSession) → Result Reconciliation
  unfolding reconcile_session
  reconcile_sessions r [] = ok r
  reconcile_sessions r ((token, session) ∷ m) = do
    next ← reconcile_session r token session
    reconcile_sessions next m

abbrev pub untouched : RunState → Reconciliation
untouched s = record {
  state = s;
  retried_task_ids = [];
  retained_task_ids = [];
  unresolved_task_ids = [];
  released_lock_ids = [];
}

unfoldable pub reconcile_running_work :
    Host → Plan → RunState → Dict String → ℕ → ℕ → String → Result Reconciliation
unfolding check_observations pending_from lock_ids_by_token reconcile_sessions
reconcile_running_work host plan s observations now_epoch retry_delay_seconds at = do
  check_observations observations
  result ←
      reconcile_sessions host observations (lock_ids_by_token s.resource_locks [])
        (now_epoch + retry_delay_seconds) at (untouched s) (pending_from 0 s.worker_sessions [])
  checked ← validate_task_states plan result.state.task_states true
  ok result
