-- ===== src/Resources/Snapshot.antt =====
-- What the locks and the incidents let the scheduler start (build_scheduler_availability). The
-- incident store keeps files, so its `status_snapshot` is an argument.
pub mod Separates
mod Examples
use Prim.Native.String.{◌++◌ as ◌⊕◌}
use codex_autopilot.Prelude.{
  ℕ, zero, suc, ◌+◌, ◌-◌, ◌*◌, ◌/◌, ◌≤◌, ◌<◌, min, max, String, ◌≡◌, refl, sym, ap, ◌∙◌, subst, ◌≢◌,
  ◌↔◌, ◌⊎◌, inl, inr, Bool, true, false, not, ◌&&◌, ◌||◌, Option, none, some, List, [], ◌∷◌, ◌++◌,
  map, arith, eq_iff, ltb, leb, nat_eq, ◌==◌, if◌then◌else◌, ==_refl, Bool-cases, Option-cases,
  length, filter_by, any, all, All, All-append, All-map, All-elem, elem, IsDistinct, Dict, lookup,
  insert, keys, get_or, is_some, lookup-insert, lookup-insert_self, lookup-insert_ne, elem-keys,
  elem-keys-insert, All-lookup, All-insert, Result, ok, err, ◌>>=◌, ◌>>◌, ensure, or_raise,
  >>=-eq-ok, ensure-eq-ok, or_raise-eq-ok, ensure-bind-eq-ok, Result-cases, length-append, is_empty,
  filter_by_empty, filter_by_none, empty_of_is_empty, keys-insert_old, All-of_sort_by, append_nil,
  All-zip, append_empty, map_empty, filter_by_nil, All-snoc, count, count_absent, count_distinct,
  elem-append, filter_by_passes, elem-filter_by, All-of_elem, text_less, then_less, then_less_asym,
  then_less_trans, then_less_trans_down, text_less_asym, text_less_trans, bad_resource_state,
  bad_lock_owner, bad_execution_mode, token_is_bound, bad_claim, key_error, unknown_task_state,
  unknown_task_id, scheduler_graph_mismatch, active_mismatch, ready_age_unknown,
  serial_with_many_active, recursion_error, bad_availability, model_routing, sort_by, insert_sorted,
  IsSorted, sort_by-perm, sort_by-IsSorted, All-sort_by, All-insert_sorted,
}
use codex_autopilot.Plan.{Task, Plan, ids}
use codex_autopilot.RunState.{RunState}
use codex_autopilot.Scheduler.Availability.{Availability}
use codex_autopilot.Resources.{NormalizedResourceClaim, DurableResourceLock}
use codex_autopilot.Resources.Conflicts.{bundles_conflict}
use codex_autopilot.Resources.Journal.{slots, validate_persisted_resource_state}
use codex_autopilot.Resources.Normalize.{Host, normalize_claims}

pub record Incident : Type 0 where
  pub incident_id : String
  pub phase : String
  pub affected_task_ids : List String

-- PipelineIncidentStore.status_snapshot()
pub record IncidentSnapshot : Type 0 where
  pub paused_task_ids : List String
  pub incidents : List Incident

abbrev pub Bundles : Type 0
Bundles = Dict (List NormalizedResourceClaim)

-- normalized[task_id], for the tasks of the plan
abbrev pub bundle_of : Bundles → String → List NormalizedResourceClaim
bundle_of normalized k = get_or [] (lookup k normalized)

incident_reason : Incident → String
incident_reason i = "incident:" ⊕ (i.incident_id ⊕ (":" ⊕ i.phase))

-- incident_reasons[k] += (reason,), for the affected tasks that are paused tasks of the plan
unfoldable pub add_reason :
    List String → List String → String → List String → Dict (List String) → Dict (List String)
add_reason known paused reason [] m = m
add_reason known paused reason (k ∷ ks) m = add_reason known paused reason ks (
    if elem k known && elem k paused then insert k (get_or [] (lookup k m) ++ reason ∷ []) m else m)

unfoldable pub incident_reasons :
    List String → List String → List Incident → Dict (List String) → Dict (List String)
unfolding incident_reason
incident_reasons known paused [] m = m
incident_reasons known paused (i ∷ more) m =
    incident_reasons known paused more
      (add_reason known paused (incident_reason i) i.affected_task_ids m)

-- A dictionary with one entry for each key.
unfoldable pub table {ℓ} : {V : Type ℓ} → (String → V) → List String → Dict V → Dict V
table f [] m = m
table f (k ∷ ks) m = table f ks (insert k (f k) m)

module _ (host : Host) where
  -- The tasks whose claims conflict with this task's.
  unfoldable pub conflicting : List String → Bundles → String → List String
  conflicting known normalized k =
      filter_by
        (λ o.
          not (k == o)
          && bundles_conflict host.fnmatchcase host.casefold (bundle_of normalized k)
              (bundle_of normalized o))
        known

  abbrev meets_held : List NormalizedResourceClaim → List DurableResourceLock → Bool
  meets_held claims locks =
      any (λ l. bundles_conflict host.fnmatchcase host.casefold claims l.claims) locks

  -- Whether the task may start: no claim of it meets a held one, a Computer Use slot is left where it
  -- needs one, and no incident pauses it.
  unfoldable pub is_available : Bundles → List DurableResourceLock → ℕ → List String → Task → Bool
  is_available normalized locks computer_limit paused t =
      not (meets_held (bundle_of normalized t.id) locks)
      && not (t.execution_mode == "computer_use" && leb computer_limit (length (slots locks)))
      && not (elem t.id paused)

  unfoldable pub available_from :
      Bundles → List DurableResourceLock → ℕ → List String → List Task → Dict Bool → Dict Bool
  available_from normalized locks computer_limit paused [] m = m
  available_from normalized locks computer_limit paused (t ∷ ts) m =
      available_from normalized locks computer_limit paused ts
        (insert t.id (is_available normalized locks computer_limit paused t) m)

  module _ (project_root : String) where
    unfoldable pub normalize_all : List Task → Bundles → Result Bundles
    normalize_all [] m = ok m
    normalize_all (t ∷ ts) m = do
      claims ← normalize_claims host project_root t.resources
      normalize_all ts (insert t.id claims m)

    unfoldable pub build_scheduler_availability :
        Plan → RunState → IncidentSnapshot → Result Availability
    build_scheduler_availability plan state snapshot = do
      locks ←
          validate_persisted_resource_state host.fnmatchcase host.casefold state.resource_locks
            state.resource_lock_journal state.resource_journal_sequence
      normalized ← normalize_all plan.tasks []
      let known = ids plan.tasks
      let computer_limit = min plan.computer_use_slots state.computer_use_slots
      ok (record {
        available_capabilities = none;
        capability_limits = [];
        resource_available =
            available_from normalized locks computer_limit snapshot.paused_task_ids plan.tasks [];
        resource_conflicts = table (conflicting known normalized) known [];
        blocked_reasons = incident_reasons known snapshot.paused_task_ids snapshot.incidents [];
      })
