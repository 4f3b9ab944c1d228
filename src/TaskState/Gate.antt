-- ===== src/TaskState/Gate.antt =====
-- The dependency gate: `unmet_dependencies` is empty exactly when every dependency is VERIFIED.
use codex_autopilot.Prelude.{
  String, ◌≡◌, refl, true, inl, inr, some, List, [], ◌∷◌, Dict, keys, lookup, elem, ok, >>=-eq-ok,
  or_raise, or_raise-eq-ok, arith, All, All-elem, empty_of_is_empty, key_error, elem-keys,
  unknown_task_id, Option-cases, Bool-cases,
}
use codex_autopilot.Plan.{Task, Plan, ids, find_task}
use codex_autopilot.Plan.Ids.{find_task_of_elem}
use codex_autopilot.TaskState.Texts.{coerce-value, value-coerce, is_iff}
use codex_autopilot.TaskState.{
  verified, value, coerce_task_state, dependency_met, dependency_state_satisfies, unmet_from,
  unmet_dependencies, dependencies_eligible, get_task,
}

-- A dependency is met when the map holds VERIFIED for it.
abbrev pub IsMet : Dict String → String → Type 0
IsMet states d = lookup d states ≡ some (value verified)

-- Only tasks of the plan stand in the map.
abbrev pub IsKnown : Plan → Dict String → Type 0
IsKnown plan states = All (λ k. elem k (ids plan.tasks) ≡ true) (keys states)

satisfies_iff :
    (t : Task) (raw : String) → dependency_state_satisfies t raw ≡ ok true → raw ≡ value verified
unfolding dependency_state_satisfies
satisfies_iff t raw h =
    let (s, read, is_verified) = >>=-eq-ok (coerce_task_state raw) _ h in
    cc (value-coerce raw read, is_iff s verified (ground arith))

dependency_met_sound :
    (plan : Plan) (states : Dict String) (d : String)
    → dependency_met plan states d ≡ ok true
    → IsMet states d
unfolding dependency_met
dependency_met_sound plan states d h = elim (Option-cases (lookup d states)) [
  | inl absent ↦ ground arith
  | inr found ↦
      let (raw, e) = found in
      let (t, _, satisfied) =
        >>=-eq-ok (or_raise (find_task d plan.tasks) (key_error d)) _
          (rw (e, dependency_met) at h) in
      cc (satisfies_iff t raw satisfied)
]

dependency_met_complete :
    (plan : Plan) (states : Dict String) (d : String)
    → elem d (ids plan.tasks) ≡ true
    → IsMet states d
    → dependency_met plan states d ≡ ok true
unfolding dependency_met dependency_state_satisfies
dependency_met_complete plan states d known met =
    let (t, e) = find_task_of_elem d plan.tasks known in ground (arith, coerce-value verified)

pub unmet_from_sound :
    (plan : Plan) (states : Dict String) (ds : List String)
    → unmet_from plan states ds ≡ ok []
    → All (IsMet states) ds
unfolding unmet_from
unmet_from_sound plan states [] h = tt
unmet_from_sound plan states (d ∷ ds) h =
    let (met, e, h') = >>=-eq-ok (dependency_met plan states d) _ h in
    let (rest, e', h'') = >>=-eq-ok (unmet_from plan states ds) _ h' in
    elim (Bool-cases met) [
      | inl yes_met ↦ (
        dependency_met_sound plan states d (ground arith),
        unmet_from_sound plan states ds (ground arith),
      )
      | inr not_met ↦ ground arith
    ]

pub unmet_from_complete :
    (plan : Plan) (states : Dict String) (ds : List String)
    → IsKnown plan states
    → All (IsMet states) ds
    → unmet_from plan states ds ≡ ok []
unfolding unmet_from
unmet_from_complete plan states [] known met = refl
unmet_from_complete plan states (d ∷ ds) known met =
    let in_map : elem d (keys states) ≡ true = ground (arith, elem-keys d states) in
    let in_plan : elem d (ids plan.tasks) ≡ true =
      All-elem (λ k. elem k (ids plan.tasks) ≡ true) (keys states) d known in_map in
    rw (
      dependency_met_complete plan states d in_plan met.0,
      unmet_from_complete plan states ds known met.1,
    )

-- Every dependency of the task with this id is VERIFIED in the map.
pub record IsEligible (plan : Plan) (states : Dict String) (task_id : String) : Type 0 where
  pub task : Task
  pub found : find_task task_id plan.tasks ≡ some task
  pub met : All (IsMet states) task.depends_on

pub unmet_dependencies_sound :
    (plan : Plan) (task_id : String) (states : Dict String)
    → unmet_dependencies plan task_id states ≡ ok []
    → IsEligible plan states task_id
unfolding unmet_dependencies get_task
unmet_dependencies_sound plan task_id states h =
    let (t, e, h') = >>=-eq-ok (get_task plan task_id) _ h in
    record {
      task = t;
      found = or_raise-eq-ok (find_task task_id plan.tasks) (unknown_task_id task_id) e;
      met = unmet_from_sound plan states t.depends_on h';
    }

pub unmet_dependencies_complete :
    (plan : Plan) (task_id : String) (states : Dict String)
    → IsKnown plan states
    → IsEligible plan states task_id
    → unmet_dependencies plan task_id states ≡ ok []
unfolding unmet_dependencies get_task
unmet_dependencies_complete plan task_id states known el =
    rw el.found (unmet_from_complete plan states el.task.depends_on known el.met)

pub dependencies_eligible_sound :
    (plan : Plan) (k : String) (states : Dict String)
    → dependencies_eligible plan k states ≡ ok true
    → IsEligible plan states k
unfolding dependencies_eligible
dependencies_eligible_sound plan k states h =
    let (unmet, e, h') = >>=-eq-ok (unmet_dependencies plan k states) _ h in
    let none_unmet : unmet ≡ [] = empty_of_is_empty unmet (ground arith) in
    unmet_dependencies_sound plan k states (cc)

pub dependencies_eligible_complete :
    (plan : Plan) (k : String) (states : Dict String)
    → IsKnown plan states
    → IsEligible plan states k
    → dependencies_eligible plan k states ≡ ok true
unfolding dependencies_eligible
dependencies_eligible_complete plan k states known el =
    rw (unmet_dependencies_complete plan k states known el)
