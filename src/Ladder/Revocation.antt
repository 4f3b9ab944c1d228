-- ===== src/Ladder/Revocation.antt =====
-- A fresh hire that rested on a runtime patch which is gone (patch_is_live and revoke_grants of
-- src/codex_autopilot/ladder_grants.py, patch_status of src/codex_autopilot/runtime_install.py,
-- record_engineer_action of src/codex_autopilot/pipeline_engineer.py for holder_only=False). Which
-- patches are on disk is a function of the folder and the name. The store's own journal and the
-- details of the run's journal are left out.

pub mod Moves
pub mod Undone
mod Examples
use Prim.Native.String as Text
use codex_autopilot.Prelude.{
  ℕ, zero, suc, ◌+◌, ◌-◌, ◌*◌, ◌/◌, ◌≤◌, ◌<◌, min, max, String, ◌≡◌, refl, sym, ap, ◌∙◌, subst, ◌≢◌,
  ◌↔◌, ◌⊎◌, inl, inr, Bool, true, false, not, ◌&&◌, ◌||◌, Option, none, some, List, [], ◌∷◌, ◌++◌,
  map, arith, eq_iff, ltb, leb, nat_eq, ◌==◌, if◌then◌else◌, ==_refl, Bool-cases, Option-cases,
  length, filter_by, any, all, All, All-append, All-map, All-elem, elem, IsDistinct, Dict, lookup,
  insert, keys, get_or, is_some, lookup-insert, lookup-insert_self, lookup-insert_ne, elem-keys,
  elem-keys-insert, All-lookup, All-insert, Result, ok, err, ◌>>=◌, ◌>>◌, ensure, or_raise,
  >>=-eq-ok, ensure-eq-ok, or_raise-eq-ok, ensure-bind-eq-ok, Result-cases, length-append, is_empty,
  filter_by_empty, filter_by_none, empty_of_is_empty, keys-insert_old, All-of_sort_by, bind-ok,
  ok-injective, same_texts, delete, append_nil, All-zip, append_empty, map_empty, filter_by_nil,
  All-snoc, count, count_absent, count_distinct, elem-append, filter_by_passes, elem-filter_by,
  All-of_elem, text_less, then_less, then_less_asym, then_less_trans, then_less_trans_down,
  text_less_asym, text_less_trans, invalid_state, plan_change_conflict, plan_change_state_conflict,
  plan_change_protocol, bad_observation, graph_cycle, bad_resource_state, bad_lock_owner,
  bad_execution_mode, token_is_bound, bad_claim, key_error, unknown_task_state, unknown_task_id,
  scheduler_graph_mismatch, active_mismatch, ready_age_unknown, serial_with_many_active,
  recursion_error, bad_availability, model_routing, sort_by, insert_sorted, IsSorted, sort_by-perm,
  sort_by-IsSorted, All-sort_by, All-insert_sorted,
}
use codex_autopilot.Plan.{Plan, find_task}
use codex_autopilot.RunState.{RunState, RevisionBasis, WorkerSession}
use codex_autopilot.TaskState.{value, blocked, transition_task}
use codex_autopilot.StateStore.{is_pending}
use codex_autopilot.Ladder.{append_event, hires_of}

-- The folders of patches, as the file system answers for a patch.json in them.
abbrev pub Folders : Type 0
Folders = String → String → Bool

unfoldable pub first_folder : Folders → String → List String → String
first_folder there patch [] = "absent"
first_folder there patch (f ∷ fs) = if there f patch then f else first_folder there patch fs

unfoldable pub patch_status : Folders → String → String
patch_status there patch =
    if there "pending" (Text.◌++◌ "revert-" patch) || there "installed" (Text.◌++◌ "revert-" patch)
    then "reverted"
    else first_folder there patch ("pending" ∷ "installed" ∷ "withdrawn" ∷ "refused" ∷ [])

unfoldable pub patch_is_live : Folders → String → Bool
patch_is_live there patch = elem (patch_status there patch) ("pending" ∷ "installed" ∷ [])

-- The grant of a return; a return without one has neither number.
pub record Grant : Type 0 where
  pub rehires_before : Option ℕ
  pub rehires_now : Option ℕ

pub record TaskReturn : Type 0 where
  pub task_id : String
  pub at : String
  pub to : String
  pub runtime_patch_ids : List String
  pub grant : Grant

pub record Revocation : Type 0 where
  pub task_id : String
  pub return_at : String
  pub runtime_patch_ids : List String
  pub reason : String
  pub blocked_again : Bool
  pub at : String

pub record Incident : Type 0 where
  pub incident_id : String
  pub returns : List TaskReturn
  pub revoked_grants : List Revocation

unfoldable pub record_engineer_action : String → Revocation → List Incident → List Incident
record_engineer_action k entry [] = []
record_engineer_action k entry (x ∷ xs) =
    if x.incident_id == k
    then record x { revoked_grants = x.revoked_grants ++ entry ∷ [] } ∷ xs
    else x ∷ record_engineer_action k entry xs

-- Whether this return's grant goes: it rests on a patch that is gone, was not revoked yet, and no
-- other patch of it stands.
unfoldable pub must_revoke : Folders → List String → Incident → TaskReturn → Bool
must_revoke there gone incident entry =
    any (λ p. elem p gone) entry.runtime_patch_ids
    && not (
        any (λ r. (r.task_id == entry.task_id) && (r.return_at == entry.at))
          incident.revoked_grants)
    && not (any (λ p. not (elem p gone) && patch_is_live there p) entry.runtime_patch_ids)

unfoldable pub is_now : Option ℕ → ℕ → Bool
is_now none n = false
is_now (some now) n = nat_eq n now

-- The tally of hires goes back to what it was, unless it moved on since.
unfoldable pub take_back_hires : TaskReturn → RunState → RunState
take_back_hires entry state = elim entry.grant.rehires_before [
  | none ↦ state
  | some before ↦
      if is_now entry.grant.rehires_now (hires_of state entry.task_id)
      then record state { task_rehires = insert entry.task_id before state.task_rehires }
      else state
]

unfoldable pub without_grant : String → Option RevisionBasis → RunState → RunState
without_grant k none state = state
without_grant k (some basis) state =
    if is_some basis.granted_on
    then record state {
      task_revision_basis = insert k (record basis { granted_on = none }) state.task_revision_basis;
    }
    else state

unfoldable pub is_at_work : RunState → String → Bool
is_at_work state k =
    elem k state.active_task_ids
    || any (λ w. (w.task_id == k) && is_pending w && not (w.kind == "pipeline_engineer"))
        state.worker_sessions

unfoldable pub stands_at : Option String → String → Bool
stands_at none to = false
stands_at (some status) to = status == to

-- Whether the return's task goes back to BLOCKED.
unfoldable pub must_block : Plan → RunState → TaskReturn → Bool
must_block plan state entry =
    not (is_at_work state entry.task_id)
    && is_some (find_task entry.task_id plan.tasks)
    && stands_at (lookup entry.task_id state.task_states) entry.to

-- The run's state, the store and the tasks that were moved back.
pub record Progress : Type 0 where
  pub state : RunState
  pub store : List Incident
  pub moved : List String

unfoldable pub take_back : TaskReturn → RunState → RunState
take_back entry state =
    let tallied = take_back_hires entry state in
    without_grant entry.task_id (lookup entry.task_id tallied.task_revision_basis) tallied

unfoldable pub revoke_return :
    Plan → String → String → Incident → TaskReturn → Progress → Result Progress
revoke_return plan reason at incident entry p = do
  let taken = take_back entry p.state
  let moves = must_block plan taken entry
  states ←
      (if moves
        then transition_task plan taken.task_states entry.task_id (value blocked)
        else ok taken.task_states)
  ok (record {
    state = append_event (record taken { task_states = states }) "fresh_hire_revoked" entry.task_id;
    store =
        record_engineer_action incident.incident_id
          (record {
            task_id = entry.task_id;
            return_at = entry.at;
            runtime_patch_ids = entry.runtime_patch_ids;
            reason = reason;
            blocked_again = moves;
            at = at;
          })
          p.store;
    moved = if moves then p.moved ++ entry.task_id ∷ [] else p.moved;
  })

module _ (there : Folders) (plan : Plan) (gone : List String) (reason at : String) where
  unfoldable pub revoke_returns : Incident → List TaskReturn → Progress → Result Progress
  revoke_returns incident [] p = ok p
  revoke_returns incident (e ∷ es) p = do
    next ←
        (if must_revoke there gone incident e
          then revoke_return plan reason at incident e p
          else ok p)
    revoke_returns incident es next

  unfoldable pub revoke_incidents : List Incident → Progress → Result Progress
  revoke_incidents [] p = ok p
  revoke_incidents (x ∷ xs) p = do next ← revoke_returns x x.returns p; revoke_incidents xs next

  -- The incidents are read once; what is recorded meanwhile goes to the store.
  unfoldable pub revoke_grants : RunState → List Incident → Result Progress
  revoke_grants state store =
      revoke_incidents store (record { state = state; store = store; moved = [] })
