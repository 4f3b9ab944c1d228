-- ===== src/Scheduler/Availability/Reasons.antt =====
-- The reasons against a launch are exhaustive: with none of them, every condition is met. And the
-- capability counters count each use once.
use codex_autopilot.Prelude.{
  ℕ, ◌+◌, String, ◌≡◌, refl, inl, inr, Bool, true, false, not, ◌&&◌, ◌||◌, List, [], ◌∷◌, ◌++◌, map,
  arith, eq_iff, ◌==◌, if◌then◌else◌, Bool-cases, All, elem, IsDistinct, Dict, lookup, insert,
  get_or, lookup-insert, All-of_sort_by, append_empty, map_empty, filter_by_nil, count, text_less,
  elem-append,
}
use codex_autopilot.Plan.{Task, Plan}
use codex_autopilot.Scheduler.Availability.{
  Availability, computer_use_capability, routes_to_astra, availability_reasons, task_capabilities,
  is_full, count_all, missing_capabilities, sorted, blocked_by, resource_unavailable,
  capability_unavailable, capability_capacity,
}

pub lookup-count_all :
    (cs : List String) (usage : Dict ℕ) (c : String)
    → get_or 0 (lookup c (count_all cs usage)) ≡ get_or 0 (lookup c usage) + count c cs
unfolding count_all count
lookup-count_all [] usage c = omega arith
lookup-count_all (x ∷ xs) usage c = ground (
  arith,
  lookup-count_all xs (insert x (get_or 0 (lookup x usage) + 1) usage) c,
  lookup-insert x c (get_or 0 (lookup x usage) + 1) usage,
  eq_iff x c,
)

IsDistinct-snoc :
    (xs : List String) (k : String) → IsDistinct xs → elem k xs ≡ false → IsDistinct (xs ++ k ∷ [])
IsDistinct-snoc [] k h new = (refl, tt)
IsDistinct-snoc (x ∷ xs) k h new = (
  ground (arith, elem-append x xs (k ∷ []), eq_iff x k, eq_iff k x),
  IsDistinct-snoc xs k h.1 (ground arith),
)

pub task_capabilities-IsDistinct :
    (plan : Plan) (t : Task)
    → IsDistinct t.required_capabilities
    → IsDistinct (task_capabilities plan t)
unfolding task_capabilities
task_capabilities-IsDistinct plan t h =
    let needed =
      (t.execution_mode == "computer_use" || routes_to_astra plan t)
      && not (elem computer_use_capability t.required_capabilities) in
    elim (Bool-cases needed) [
      | inl adds ↦
          rw adds (IsDistinct-snoc t.required_capabilities computer_use_capability h (ground arith))
      | inr keeps ↦ rw keeps h
    ]

-- Nothing speaks against the launch of the task.
pub record HasNoReasons (plan : Plan) (a : Availability) (limits usage : Dict ℕ) (task : Task)
    (resource_ok : Bool) : Type 0 where
  pub unblocked : get_or [] (lookup task.id a.blocked_reasons) ≡ []
  pub admitted : resource_ok ≡ true
  pub capable : missing_capabilities a.available_capabilities task.required_capabilities ≡ []
  pub roomy : All (λ c. is_full limits usage c ≡ false) (task_capabilities plan task)

pub no_availability_reasons :
    (plan : Plan) (a : Availability) (limits usage : Dict ℕ) (task : Task) (resource_ok : Bool)
    → availability_reasons plan a limits usage task resource_ok ≡ []
    → HasNoReasons plan a limits usage task resource_ok
unfolding availability_reasons
no_availability_reasons plan a limits usage task resource_ok h =
    let (no_block, h₁) =
      append_empty (map blocked_by (get_or [] (lookup task.id a.blocked_reasons))) _ h in
    let (no_resource, h₂) =
      append_empty (if resource_ok then [] else resource_unavailable ∷ []) _ h₁ in
    let (no_missing, no_full) =
      append_empty
        (map capability_unavailable
          (missing_capabilities a.available_capabilities task.required_capabilities))
        _ h₂ in
    let caps = task_capabilities plan task in
    record {
      unblocked = map_empty blocked_by _ no_block;
      admitted = ground arith;
      capable = map_empty capability_unavailable _ no_missing;
      roomy =
          All-of_sort_by text_less (λ c. is_full limits usage c ≡ false) caps
            (filter_by_nil (is_full limits usage) (sorted caps)
              (map_empty capability_capacity _ no_full));
    }
