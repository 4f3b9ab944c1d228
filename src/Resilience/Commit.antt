-- ===== src/Resilience/Commit.antt =====
-- The two-file commit of a plan change and its recovery (commit_plan_change and
-- recover_plan_change_transaction). The files are fields of a `Disk`; a crash leaves the disk after
-- some of the atomic writes. SHA-256 of the canonical JSON of a plan and of a state less `updated_at`
-- (which `RunState` has not), and the admission of a plan, which is code that is not modelled
-- (validate_plan_change, validate_persisted_plan), are parameters.
pub mod Recovers
pub mod Snapshots
mod Examples
use codex_autopilot.Prelude.{
  ℕ, zero, suc, ◌+◌, ◌-◌, ◌*◌, ◌/◌, ◌≤◌, ◌<◌, min, max, String, ◌≡◌, refl, sym, ap, ◌∙◌, subst, ◌≢◌,
  ◌↔◌, ◌⊎◌, inl, inr, Bool, true, false, not, ◌&&◌, ◌||◌, Option, none, some, List, [], ◌∷◌, ◌++◌,
  map, arith, eq_iff, ltb, leb, nat_eq, ◌==◌, if◌then◌else◌, ==_refl, Bool-cases, Option-cases,
  length, filter_by, any, all, All, All-append, All-map, All-elem, elem, IsDistinct, Dict, lookup,
  insert, keys, get_or, is_some, lookup-insert, lookup-insert_self, lookup-insert_ne, elem-keys,
  elem-keys-insert, All-lookup, All-insert, Result, ok, err, ◌>>=◌, ◌>>◌, ensure, or_raise,
  >>=-eq-ok, ensure-eq-ok, or_raise-eq-ok, ensure-bind-eq-ok, Result-cases, length-append, is_empty,
  filter_by_empty, filter_by_none, empty_of_is_empty, keys-insert_old, All-of_sort_by, bind-ok,
  same_texts, delete, append_nil, All-zip, append_empty, map_empty, filter_by_nil, All-snoc, count,
  count_absent, count_distinct, elem-append, filter_by_passes, elem-filter_by, All-of_elem,
  text_less, then_less, then_less_asym, then_less_trans, then_less_trans_down, text_less_asym,
  text_less_trans, invalid_state, plan_change_conflict, plan_change_state_conflict,
  plan_change_protocol, bad_observation, graph_cycle, bad_resource_state, bad_lock_owner,
  bad_execution_mode, token_is_bound, bad_claim, key_error, unknown_task_state, unknown_task_id,
  scheduler_graph_mismatch, active_mismatch, ready_age_unknown, serial_with_many_active,
  recursion_error, bad_availability, model_routing, sort_by, insert_sorted, IsSorted, sort_by-perm,
  sort_by-IsSorted, All-sort_by, All-insert_sorted, Failure,
}
use codex_autopilot.Plan.{Plan}
use codex_autopilot.Plan.Equality.{same_plan}
use codex_autopilot.TaskState.{validate_task_states}
use codex_autopilot.Usage.{Limits, missing}
use codex_autopilot.RunState.{RunState}
use codex_autopilot.StateStore.{load, save, with_limits}
use codex_autopilot.Resources.Normalize.{Host}

-- plan-change-transaction.json
pub record Transaction : Type 0 where
  pub status : String
  pub request_id : ℕ
  pub base_graph_version : ℕ
  pub target_graph_version : ℕ
  pub base_plan_sha256 : String
  pub target_plan_sha256 : String
  pub base_state_sha256 : String
  pub target_state_sha256 : String
  pub target_plan : Plan
  pub target_state : RunState

-- That file, plan.json, run-state.json and rate-limits.json.
pub record Disk : Type 0 where
  pub transaction : Option Transaction
  pub plan : Plan
  pub state : RunState
  pub rate_limits : Limits

abbrev pub transaction_statuses : List String
transaction_statuses = "PREPARED" ∷ "PLAN_WRITTEN" ∷ "COMMITTED" ∷ []

abbrev pub with_status : Transaction → String → Disk → Disk
with_status t status d = record d { transaction = some (record t { status = status }) }

-- The disk after each write that was made, and the exception that ended the run, if one did.
pub record Trace : Type 0 where
  pub disks : List Disk
  pub failure : Option Failure

abbrev pub one_of : String → String → String → Bool
one_of a b c = a == b || a == c

module _ (host : Host) (digest : Plan → String) (state_digest : RunState → String) where
  unfoldable pub prepare : Plan → Plan → RunState → RunState → ℕ → Transaction
  prepare current candidate base state request_id = record {
    status = "PREPARED";
    request_id = request_id;
    base_graph_version = current.graph_version;
    target_graph_version = candidate.graph_version;
    base_plan_sha256 = digest current;
    target_plan_sha256 = digest candidate;
    base_state_sha256 = state_digest base;
    target_state_sha256 = state_digest state;
    target_plan = candidate;
    target_state = state;
  }

  -- The writes. Only that of the state may raise, and then the run ends before it.
  unfoldable pub write_all : Disk → Transaction → Plan → RunState → Trace
  write_all d t candidate state =
      let prepared = with_status t "PREPARED" d in
      let plan_saved = record prepared { plan = candidate } in
      let plan_written = with_status t "PLAN_WRITTEN" plan_saved in
      elim (save host state) [
        | err e ↦ record { disks = prepared ∷ plan_saved ∷ plan_written ∷ []; failure = some e }
        | ok written ↦
            let state_written = record plan_written { state = written } in
            record {
              disks =
                  prepared
                  ∷ plan_saved
                  ∷ plan_written
                  ∷ state_written
                  ∷ with_status t "COMMITTED" state_written
                  ∷ [];
              failure = none;
            }
      ]

  -- `validated` is what validate_plan_change gives.
  unfoldable pub commit_plan_change : Disk → Result Plan → Plan → Plan → RunState → ℕ → Result Trace
  unfolding prepare write_all
  commit_plan_change d validated current candidate state request_id = do
    admitted ← validated
    ensure (same_plan admitted candidate && nat_eq state.graph_version candidate.graph_version)
        plan_change_conflict
    base ← load host d.state d.rate_limits
    ensure (nat_eq base.graph_version current.graph_version) plan_change_conflict
    ok (write_all d (prepare current candidate base state request_id) candidate state)

  -- What is asked of the files beside the transaction's.
  unfoldable pub check_files : Disk → Transaction → Result (Unit {0})
  check_files d t = do
    ensure (one_of (digest d.plan) t.base_plan_sha256 t.target_plan_sha256) plan_change_conflict
    current_state ← load host d.state d.rate_limits
    ensure
        (nat_eq current_state.graph_version t.base_graph_version
          || nat_eq current_state.graph_version t.target_graph_version)
        plan_change_conflict
    ensure (one_of (state_digest current_state) t.base_state_sha256 t.target_state_sha256)
        plan_change_conflict

  unfoldable pub check_transaction : (Plan → Result Plan) → Transaction → Result Plan
  check_transaction validate_persisted_plan t = do
    ensure (elem t.status transaction_statuses) plan_change_conflict
    ensure (digest t.target_plan == t.target_plan_sha256) plan_change_conflict
    ensure (state_digest t.target_state == t.target_state_sha256) plan_change_conflict
    target ← validate_persisted_plan t.target_plan
    ensure (nat_eq target.graph_version t.target_graph_version) plan_change_conflict
    ensure (nat_eq t.target_state.graph_version target.graph_version) plan_change_conflict
    checked ← validate_task_states target t.target_state.task_states true
    ok target

  -- Whether there was something to complete, and the disk.
  unfoldable pub recover_from :
      (Plan → Result Plan) → Option Transaction → Disk → Result (Bool × Disk)
  unfolding check_files check_transaction
  recover_from validate_persisted_plan none d = ok (false, d)
  recover_from validate_persisted_plan (some t) d = do
    target ← check_transaction validate_persisted_plan t
    if t.status == "COMMITTED" then ok (false, d) else (do
      check_files d t
      written ← save host t.target_state
      ok (true, with_status t "COMMITTED" (record d { plan = target; state = written })))

  unfoldable pub recover_plan_change_transaction :
      (Plan → Result Plan) → Disk → Result (Bool × Disk)
  unfolding recover_from
  recover_plan_change_transaction validate_persisted_plan d =
      recover_from validate_persisted_plan d.transaction d

-- StateStore.record_rate_limits: an empty snapshot is not written.
unfoldable pub record_rate_limits : Limits → Disk → Disk
record_rate_limits missing d = d
record_rate_limits limits d = record d { rate_limits = limits }
