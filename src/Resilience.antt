-- ===== src/Resilience.antt =====
-- Changes of a running plan and recovery from crashes (src/codex_autopilot/resilience.py). The typed
-- messages of the workers are read by code that is not here: a request stands as the record it is
-- read into. A clock's text is an argument, `at`.
pub mod Commit
pub mod Reconcile
pub mod Registers
pub mod Running
mod Examples
use codex_autopilot.Prelude.{
  ℕ, zero, suc, ◌+◌, ◌-◌, ◌*◌, ◌/◌, ◌≤◌, ◌<◌, min, max, String, ◌≡◌, refl, sym, ap, ◌∙◌, subst, ◌≢◌,
  ◌↔◌, ◌⊎◌, inl, inr, Bool, true, false, not, ◌&&◌, ◌||◌, Option, none, some, List, [], ◌∷◌, ◌++◌,
  map, arith, eq_iff, ltb, leb, nat_eq, ◌==◌, if◌then◌else◌, ==_refl, Bool-cases, Option-cases,
  length, filter_by, any, all, All, All-append, All-map, All-elem, elem, IsDistinct, Dict, lookup,
  insert, keys, get_or, is_some, lookup-insert, lookup-insert_self, lookup-insert_ne, elem-keys,
  elem-keys-insert, All-lookup, All-insert, Result, ok, err, ◌>>=◌, ◌>>◌, ensure, or_raise,
  >>=-eq-ok, ensure-eq-ok, or_raise-eq-ok, ensure-bind-eq-ok, Result-cases, length-append, is_empty,
  filter_by_empty, filter_by_none, empty_of_is_empty, keys-insert_old, All-of_sort_by, bind-ok,
  same_texts, delete, append_nil, All-zip, append_empty, map_empty, filter_by_nil, All-snoc, count,
  count_absent, count_distinct, elem-append, filter_by_passes, elem-filter_by, All-of_elem,
  text_less, then_less, then_less_asym, then_less_trans, then_less_trans_down, text_less_asym,
  text_less_trans, invalid_state, plan_change_conflict, plan_change_state_conflict,
  plan_change_protocol, bad_observation, graph_cycle, bad_resource_state, bad_lock_owner,
  bad_execution_mode, token_is_bound, bad_claim, key_error, unknown_task_state, unknown_task_id,
  scheduler_graph_mismatch, active_mismatch, ready_age_unknown, serial_with_many_active,
  recursion_error, bad_availability, model_routing, sort_by, insert_sorted, IsSorted, sort_by-perm,
  sort_by-IsSorted, All-sort_by, All-insert_sorted,
}
use codex_autopilot.RunState.{RunState, PlanChange, PlanChangeRequest, ResilienceEvent}

-- append_resilience_event
unfoldable pub append_resilience_event : RunState → String → Option String → Option ℕ → RunState
append_resilience_event s event task_id plan_change_id = record s {
  resilience_journal_sequence = suc s.resilience_journal_sequence;
  resilience_journal =
      s.resilience_journal
      ++ record {
        sequence = suc s.resilience_journal_sequence;
        event = event;
        task_id = task_id;
        plan_change_id = plan_change_id;
      }
        ∷ [];
}

abbrev pub has_id : ℕ → PlanChange → Bool
has_id n c = nat_eq c.id n

abbrev pub or_else : Option ℕ → Option ℕ → Option ℕ
or_else none o = o
or_else (some n) o = some n

abbrev pub the_only : List PlanChange → Result PlanChange
the_only (c ∷ []) = ok c
the_only _ = err plan_change_conflict

-- request_id or state.active_plan_change_id, and the one record with it
unfoldable pub active_plan_change : RunState → Option ℕ → Result PlanChange
active_plan_change s request_id = elim (or_else request_id s.active_plan_change_id) [
  | none ↦ err plan_change_conflict
  | some n ↦ the_only (filter_by (has_id n) s.plan_changes)
]

unfoldable pub new_change : RunState → PlanChangeRequest → String → String → String → PlanChange
new_change s request requester_task_id requester_session_token at = record {
  id = suc s.plan_change_sequence;
  status = "DRAINING";
  requester_task_id = requester_task_id;
  requester_session_token = requester_session_token;
  base_graph_version = s.graph_version;
  request = request;
  created_at = at;
  applied_graph_version = none;
  completed_at = none;
}

-- The new record, and the state that holds it.
unfoldable pub register_plan_change_request :
    RunState → PlanChangeRequest → String → String → String → Result (PlanChange × RunState)
register_plan_change_request s request requester_task_id requester_session_token at = do
  ensure (not (is_some s.active_plan_change_id)) plan_change_conflict
  ensure (request.target_task_id == requester_task_id) plan_change_protocol
  let change = new_change s request requester_task_id requester_session_token at
  let registered = record s {
    plan_change_sequence = suc s.plan_change_sequence;
    plan_changes = s.plan_changes ++ change ∷ [];
    active_plan_change_id = some change.id;
  }
  ok (
    change,
    append_resilience_event registered "plan_change_requested" (some requester_task_id)
        (some change.id),
  )
