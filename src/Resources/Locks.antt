-- ===== src/Resources/Locks.antt =====
-- Acquisition and release (acquire_resources_in_state, release_resources_in_state,
-- append_resource_event). A refusal that raises leaves the state as it was, so it carries none.
pub mod Exclusive
pub mod Joining
pub mod Acquire
pub mod Accepted
pub mod Keeps
pub mod Release
pub mod Releases
mod Examples
use Prim.Native.String.{◌++◌ as ◌⊕◌}
use codex_autopilot.Prelude.{
  ℕ, zero, suc, ◌+◌, ◌-◌, ◌*◌, ◌/◌, ◌≤◌, ◌<◌, min, max, String, ◌≡◌, refl, sym, ap, ◌∙◌, subst, ◌≢◌,
  ◌↔◌, ◌⊎◌, inl, inr, Bool, true, false, not, ◌&&◌, ◌||◌, Option, none, some, List, [], ◌∷◌, ◌++◌,
  map, arith, eq_iff, ltb, leb, nat_eq, ◌==◌, if◌then◌else◌, ==_refl, Bool-cases, Option-cases,
  length, filter_by, any, all, All, All-append, All-map, All-elem, elem, IsDistinct, Dict, lookup,
  insert, keys, get_or, is_some, lookup-insert, lookup-insert_self, lookup-insert_ne, elem-keys,
  elem-keys-insert, All-lookup, All-insert, Result, ok, err, ◌>>=◌, ◌>>◌, ensure, or_raise,
  >>=-eq-ok, ensure-eq-ok, or_raise-eq-ok, ensure-bind-eq-ok, Result-cases, length-append, is_empty,
  filter_by_empty, filter_by_none, empty_of_is_empty, keys-insert_old, All-of_sort_by, append_empty,
  map_empty, filter_by_nil, All-snoc, count, count_absent, count_distinct, elem-append,
  filter_by_passes, elem-filter_by, All-of_elem, text_less, then_less, then_less_asym,
  then_less_trans, then_less_trans_down, text_less_asym, text_less_trans, bad_resource_state,
  bad_lock_owner, bad_execution_mode, token_is_bound, bad_claim, key_error, unknown_task_state,
  unknown_task_id, scheduler_graph_mismatch, active_mismatch, ready_age_unknown,
  serial_with_many_active, recursion_error, bad_availability, model_routing, sort_by, insert_sorted,
  IsSorted, sort_by-perm, sort_by-IsSorted, All-sort_by, All-insert_sorted,
}
use codex_autopilot.Plan.{Task, Plan, find_task}
use codex_autopilot.RunState.{RunState}
use codex_autopilot.Resources.{NormalizedResourceClaim, LockOwner, DurableResourceLock, LockEvent}
use codex_autopilot.Resources.Targets.{claims_conflict}
use codex_autopilot.Resources.Journal.{
  claim_ids_of, has_number, slots, validate_persisted_resource_state,
}
use codex_autopilot.Resources.Normalize.{Host, strip, is_blank, normalize_claims}
use codex_autopilot.Resources.Requests.{
  ResourceConflict, AcquisitionResult, last_digits, digits_needed, lock_name, check_lock_owner,
  check_request, mode_or, find_token, same_owner, same_claims, conflicts_in, conflicts_with,
  all_conflicts,
}

-- next((slot for slot in range(limit) if slot not in used), None), from `slot` on
unfoldable pub free_slot : ℕ → ℕ → List ℕ → Option ℕ
free_slot zero slot used = none
free_slot (suc left) slot used =
    let later = free_slot left (suc slot) used in if has_number slot used then later else some slot

-- What the request for a Computer Use slot comes to.
pub data SlotChoice : Type 0 where
  not_needed full : SlotChoice
  slot_at : ℕ → SlotChoice

unfoldable pub choose_slot : Plan → RunState → String → SlotChoice
choose_slot plan state mode =
    if mode == "computer_use"
    then (elim (free_slot (min plan.computer_use_slots state.computer_use_slots) 0
        (slots state.resource_locks)) [ none ↦ full | some slot ↦ slot_at slot ])
    else not_needed

abbrev refused : List ResourceConflict → String → AcquisitionResult
refused conflicts reason = record {
  acquired = false;
  lock_id = none;
  computer_use_slot = none;
  conflicts = conflicts;
  reason = some reason;
  reused = false;
}

abbrev granted : String → Option ℕ → Bool → AcquisitionResult
granted lock_id slot reused = record {
  acquired = true;
  lock_id = some lock_id;
  computer_use_slot = slot;
  conflicts = [];
  reason = none;
  reused = reused;
}

unfoldable pub append_resource_event :
    RunState → DurableResourceLock → String → String → Option String → RunState
append_resource_event state lock event at reason =
    let next = suc state.resource_journal_sequence in
    record state {
      resource_journal_sequence = next;
      resource_lock_journal =
          state.resource_lock_journal
          ++ record {
            sequence = next;
            event = event;
            lock_id = lock.lock_id;
            ownership_token = lock.owner.ownership_token;
            task_id = lock.owner.task_id;
            at = at;
            claim_ids = claim_ids_of lock;
            computer_use_slot = lock.computer_use_slot;
            reason = reason;
          }
            ∷ [];
    }

-- The new lock, its entry in the journal, and the state that holds both.
abbrev pub new_lock :
    RunState → LockOwner → List NormalizedResourceClaim → String → Option ℕ → DurableResourceLock
new_lock state owner claims now slot = record {
  lock_id = lock_name (suc state.resource_journal_sequence);
  owner = owner;
  claims = claims;
  acquired_at = now;
  heartbeat_at = now;
  computer_use_slot = slot;
}

unfoldable pub grant :
    RunState
    → LockOwner
    → List NormalizedResourceClaim
    → String
    → Option ℕ
    → RunState × AcquisitionResult
grant state owner claims now slot =
    let lock = new_lock state owner claims now slot in
    let held = record state { resource_locks = state.resource_locks ++ lock ∷ [] } in
    (append_resource_event held lock "acquired" now none, granted lock.lock_id slot false)

unfoldable pub grant_slot :
    RunState
    → LockOwner
    → List NormalizedResourceClaim
    → String
    → SlotChoice
    → RunState × AcquisitionResult
grant_slot state owner claims now not_needed = grant state owner claims now none
grant_slot state owner claims now full = (state, refused [] "computer_use_capacity")
grant_slot state owner claims now (slot_at slot) = grant state owner claims now (some slot)

-- The token is bound already: the same bundle is given back, any other is refused.
unfoldable pub reuse :
    RunState
    → DurableResourceLock
    → LockOwner
    → List NormalizedResourceClaim
    → Result (RunState × AcquisitionResult)
reuse state existing owner claims = do
  ensure (same_owner existing.owner owner && same_claims existing.claims claims) token_is_bound
  ok (state, granted existing.lock_id existing.computer_use_slot true)

module _ (host : Host) where
  -- A new token: one bundle for a task, no conflict with a held claim, and a slot where one is needed.
  unfoldable pub take_new :
      Plan
      → RunState
      → LockOwner
      → List NormalizedResourceClaim
      → String
      → String
      → RunState × AcquisitionResult
  take_new plan state owner claims mode now =
      let conflicts = all_conflicts host claims state.resource_locks in
      if any (λ l. l.owner.task_id == owner.task_id) state.resource_locks
      then (state, refused [] "owner_conflict")
      else if not (is_empty conflicts)
      then (state, refused conflicts "resource_conflict")
      else grant_slot state owner claims now (choose_slot plan state mode)

module _ (host : Host) where
  -- The state, and whether a lock was released.
  unfoldable pub release_resources_in_state :
      RunState → String → String → String → Result (RunState × Bool)
  release_resources_in_state state raw_token raw_reason now = do
    let token = strip raw_token
    let reason = strip raw_reason
    ensure (not (is_blank raw_token) && not (is_blank raw_reason)) bad_lock_owner
    locks ←
        validate_persisted_resource_state host.fnmatchcase host.casefold state.resource_locks
          state.resource_lock_journal state.resource_journal_sequence
    elim (find_token token locks) [
      | none ↦ ok (state, false)
      | some lock ↦
          let kept = record state {
            resource_locks = filter_by (λ l. not (l.owner.ownership_token == token)) locks;
          } in
          ok (append_resource_event kept lock "released" now (some reason), true)
    ]

module _ (host : Host) (project_root : String) where
  unfoldable pub acquire_resources_in_state :
      Plan
      → RunState
      → String
      → LockOwner
      → Option String
      → String
      → Result (RunState × AcquisitionResult)
  acquire_resources_in_state plan state task_id owner execution_mode now = do
    task ← check_request plan state task_id owner
    let mode = mode_or execution_mode task.execution_mode
    ensure (mode == "code" || mode == "computer_use") bad_execution_mode
    locks ←
        validate_persisted_resource_state host.fnmatchcase host.casefold state.resource_locks
          state.resource_lock_journal state.resource_journal_sequence
    claims ← normalize_claims host project_root task.resources
    elim (find_token owner.ownership_token locks) [
      | some existing ↦ reuse state existing owner claims
      | none ↦ ok (take_new host plan state owner claims mode now)
    ]
