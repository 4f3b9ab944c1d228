-- ===== src/Scheduler/Availability.antt =====
-- The availability snapshot and the reasons against a launch (SchedulerAvailability,
-- _validate_availability, _availability_reasons, _task_capabilities, the capability counters).
-- The checks of Python types are the types here. A failed check is one failure.
pub mod Reasons
use codex_autopilot.Prelude.{
  ℕ, zero, suc, ◌+◌, ◌-◌, ◌*◌, ◌/◌, ◌≤◌, ◌<◌, min, max, String, ◌≡◌, refl, sym, ap, ◌∙◌, subst, ◌≢◌,
  ◌↔◌, ◌⊎◌, inl, inr, Bool, true, false, not, ◌&&◌, ◌||◌, Option, none, some, List, [], ◌∷◌, ◌++◌,
  map, arith, eq_iff, ltb, leb, nat_eq, ◌==◌, if◌then◌else◌, ==_refl, Bool-cases, Option-cases,
  length, filter_by, any, all, All, All-append, All-map, All-elem, elem, IsDistinct, Dict, lookup,
  insert, keys, get_or, is_some, lookup-insert, lookup-insert_self, lookup-insert_ne, elem-keys,
  elem-keys-insert, All-lookup, All-insert, Result, ok, err, ◌>>=◌, ◌>>◌, ensure, or_raise,
  >>=-eq-ok, ensure-eq-ok, or_raise-eq-ok, ensure-bind-eq-ok, Result-cases, length-append, is_empty,
  filter_by_empty, filter_by_none, empty_of_is_empty, keys-insert_old, filter_by_passes,
  elem-filter_by, All-of_elem, text_less, then_less, then_less_asym, then_less_trans,
  then_less_trans_down, text_less_asym, text_less_trans, key_error, unknown_task_state,
  unknown_task_id, scheduler_graph_mismatch, active_mismatch, ready_age_unknown,
  serial_with_many_active, recursion_error, bad_availability, model_routing, sort_by, insert_sorted,
  IsSorted, sort_by-perm, sort_by-IsSorted, All-sort_by, All-insert_sorted,
}
use codex_autopilot.Plan.{Task, Plan, ids, find_task}
use codex_autopilot.RunState.{RunState}
use codex_autopilot.Models.{logical_model}

abbrev pub computer_use_capability : String
computer_use_capability = "computer_use"

pub record Availability : Type 0 where
  pub available_capabilities : Option (List String)
  pub capability_limits : Dict ℕ
  pub resource_available : Dict Bool
  pub resource_conflicts : Dict (List String)
  pub blocked_reasons : Dict (List String)

-- A reason to defer a launch; the source writes each as a text.
pub data Deferral : Type 0 where
  blocked_by capability_unavailable capability_capacity resource_conflict : String → Deferral
  resource_unavailable worker_capacity : Deferral

abbrev nonempty : String → Bool
nonempty t = not (t == "")

-- One entry of the conflict table: known tasks, not the task itself, and each names it back.
check_conflicts : List String → Dict (List String) → String → List String → Bool
check_conflicts known table k others =
    all (λ o. elem o known) others
    && not (elem k others)
    && all (λ o. elem k (get_or [] (lookup o table))) others

check_conflict_table : List String → Dict (List String) → Dict (List String) → Bool
unfolding check_conflicts
check_conflict_table known table [] = true
check_conflict_table known table ((k, others) ∷ m) =
    check_conflicts known table k others && check_conflict_table known table m

check_reasons : Dict (List String) → Bool
check_reasons [] = true
check_reasons ((k, reasons) ∷ m) = all nonempty reasons && check_reasons m

check_names : Option (List String) → Bool
check_names none = true
check_names (some names) = all nonempty names

unfoldable pub validate_availability : Plan → Availability → Result (Unit {0})
unfolding check_conflict_table check_reasons check_names
validate_availability plan a = do
  let known = ids plan.tasks
  ensure (check_names a.available_capabilities) bad_availability
  ensure (all nonempty (keys a.capability_limits)) bad_availability
  ensure (all (λ k. elem k known) (keys a.resource_available)) bad_availability
  ensure (all (λ k. elem k known) (keys a.resource_conflicts)) bad_availability
  ensure (check_conflict_table known a.resource_conflicts a.resource_conflicts) bad_availability
  ensure (all (λ k. elem k known) (keys a.blocked_reasons)) bad_availability
  ensure (check_reasons a.blocked_reasons) bad_availability

-- logical_model(...) == "astra", where any refusal counts as no
routes_to_astra : Plan → Task → Bool
routes_to_astra plan task = elim (logical_model plan.model_strategy task.execution_mode) [
  | ok model ↦ model == "astra"
  | err e ↦ false
]

unfoldable pub task_capabilities : Plan → Task → List String
unfolding routes_to_astra
task_capabilities plan task =
    let needs_surface = task.execution_mode == "computer_use" || routes_to_astra plan task in
    if needs_surface && not (elem computer_use_capability task.required_capabilities)
    then task.required_capabilities ++ computer_use_capability ∷ []
    else task.required_capabilities

-- Counter.update
unfoldable pub count_all : List String → Dict ℕ → Dict ℕ
count_all [] usage = usage
count_all (c ∷ cs) usage = count_all cs (insert c (get_or 0 (lookup c usage) + 1) usage)

unfoldable pub usage_from : Plan → List String → Dict ℕ → Result (Dict ℕ)
usage_from plan [] usage = ok usage
usage_from plan (k ∷ ks) usage = do
  task ← or_raise (find_task k plan.tasks) (key_error k)
  usage_from plan ks (count_all (task_capabilities plan task) usage)

unfoldable pub active_capability_usage : Plan → RunState → Result (Dict ℕ)
unfolding usage_from
active_capability_usage plan state = usage_from plan state.active_task_ids []

unfoldable pub effective_capability_limits : Plan → RunState → Availability → Dict ℕ
effective_capability_limits plan state a =
    let slots = min plan.computer_use_slots state.computer_use_slots in
    let limit : ℕ = elim (lookup computer_use_capability a.capability_limits) [
      | none ↦ slots
      | some n ↦ min slots n
    ] in
    insert computer_use_capability limit a.capability_limits

-- usage.get(capability, 0) >= limit, where the capability has a limit
unfoldable pub is_full : Dict ℕ → Dict ℕ → String → Bool
is_full limits usage c = elim (lookup c limits) [
  | none ↦ false
  | some limit ↦ leb limit (get_or 0 (lookup c usage))
]

-- set(xs), as a list
once : List String → List String
once [] = []
once (x ∷ xs) = let rest = once xs in if elem x rest then rest else x ∷ rest

abbrev sorted : List String → List String
sorted = sort_by text_less

unfoldable pub missing_capabilities : Option (List String) → List String → List String
unfolding once
missing_capabilities none required = []
missing_capabilities (some available) required =
    sorted (filter_by (λ c. not (elem c available)) (once required))

unfoldable pub availability_reasons :
    Plan → Availability → Dict ℕ → Dict ℕ → Task → Bool → List Deferral
unfolding missing_capabilities
availability_reasons plan a limits usage task resource_ok =
    map blocked_by (get_or [] (lookup task.id a.blocked_reasons))
    ++ ((if resource_ok then [] else resource_unavailable ∷ [])
        ++ (map capability_unavailable
              (missing_capabilities a.available_capabilities task.required_capabilities)
            ++ map capability_capacity
                (filter_by (is_full limits usage) (sorted (task_capabilities plan task)))))
