-- ===== src/Admission.antt =====
-- The admission of a plan's graph (src/codex_autopilot/plan_admission.py, and validate_unique of
-- plan_parse.py): ids, dependencies and cycles of tasks that have been read. The other stages read
-- fields that `Task` has not. `visit` runs on fuel for its recursion, the number of tasks: the tasks
-- under way are distinct.
pub mod Cycles
pub mod Orders
mod Examples
use codex_autopilot.Prelude.{Failure, graph_cycle, not_unique}
use codex_autopilot.Prelude.{
  ℕ, zero, suc, ◌+◌, ◌-◌, ◌*◌, ◌/◌, ◌≤◌, ◌<◌, min, max, String, ◌≡◌, refl, sym, ap, ◌∙◌, subst, ◌≢◌,
  ◌↔◌, ◌⊎◌, inl, inr, Bool, true, false, not, ◌&&◌, ◌||◌, Option, none, some, List, [], ◌∷◌, ◌++◌,
  map, arith, eq_iff, ltb, leb, nat_eq, ◌==◌, if◌then◌else◌, ==_refl, Bool-cases, Option-cases,
  length, filter_by, any, all, All, All-append, All-map, All-elem, elem, IsDistinct, Dict, lookup,
  insert, keys, get_or, is_some, lookup-insert, lookup-insert_self, lookup-insert_ne, elem-keys,
  elem-keys-insert, All-lookup, All-insert, Result, ok, err, ◌>>=◌, ◌>>◌, ensure, or_raise,
  >>=-eq-ok, ensure-eq-ok, or_raise-eq-ok, ensure-bind-eq-ok, Result-cases, length-append, is_empty,
  filter_by_empty, filter_by_none, empty_of_is_empty, keys-insert_old, All-of_sort_by, bind-ok,
  ok-injective, same_texts, delete, append_nil, All-zip, append_empty, map_empty, filter_by_nil,
  All-snoc, count, count_absent, count_distinct, elem-append, filter_by_passes, elem-filter_by,
  All-of_elem, text_less, then_less, then_less_asym, then_less_trans, then_less_trans_down,
  text_less_asym, text_less_trans, invalid_state, plan_change_conflict, plan_change_state_conflict,
  plan_change_protocol, bad_observation, graph_cycle, bad_resource_state, bad_lock_owner,
  bad_execution_mode, token_is_bound, bad_claim, key_error, unknown_task_state, unknown_task_id,
  scheduler_graph_mismatch, active_mismatch, ready_age_unknown, serial_with_many_active,
  recursion_error, bad_availability, model_routing, sort_by, insert_sorted, IsSorted, sort_by-perm,
  sort_by-IsSorted, All-sort_by, All-insert_sorted,
}
use codex_autopilot.Plan.{Task, ids}

-- sorted({item for item in items if items.count(item) > 1})
abbrev repeated : List String → List String
repeated [] = []
repeated (x ∷ xs) =
    let rest = repeated xs in if elem x xs && not (elem x rest) then x ∷ rest else rest

unfoldable pub validate_unique : List String → Result (Unit {0})
validate_unique items =
    ensure (is_empty (repeated items)) (not_unique (sort_by text_less (repeated items)))

-- The issues of the stage "graph" that are about dependencies.
pub data GraphIssue : Type 0 where
  depends_on_itself : String → GraphIssue
  references_unknown : String → String → GraphIssue
  refused : Failure → GraphIssue

unfoldable pub dependency_issues : List String → String → List String → List GraphIssue
dependency_issues raw_task_ids task_id [] = []
dependency_issues raw_task_ids task_id (d ∷ ds) =
    let rest = dependency_issues raw_task_ids task_id ds in
    if d == task_id
    then depends_on_itself task_id ∷ rest
    else if not (elem d raw_task_ids)
    then references_unknown task_id d ∷ rest
    else rest

unfoldable pub graph_issues : List String → List Task → List GraphIssue
unfolding dependency_issues
graph_issues raw_task_ids [] = []
graph_issues raw_task_ids (t ∷ ts) =
    dependency_issues raw_task_ids t.id t.depends_on ++ graph_issues raw_task_ids ts

-- {task.id: task.depends_on for task in tasks}
unfoldable pub dependencies_from : List Task → Dict (List String) → Dict (List String)
dependencies_from [] m = m
dependencies_from (t ∷ ts) m = dependencies_from ts (insert t.id t.depends_on m)

-- One visit after the other; the names that were visited, the newest first.
unfoldable pub visit_each :
    (List String → String → Result (List String)) → List String → List String → Result (List String)
visit_each step visited [] = ok visited
visit_each step visited (d ∷ ds) = do next ← step visited d; visit_each step next ds

unfoldable pub visit :
    ℕ → Dict (List String) → List String → List String → String → Result (List String)
unfolding visit_each
visit zero dependencies stack visited task_id = elim (elem task_id visited) [
  | true ↦ ok visited
  | false ↦ elim (elem task_id stack) [ true ↦ err graph_cycle | false ↦ err recursion_error ]
]
visit (suc fuel) dependencies stack visited task_id = elim (elem task_id visited) [
  | true ↦ ok visited
  | false ↦ elim (elem task_id stack) [
    | true ↦ err graph_cycle
    | false ↦ do
      ds ← or_raise (lookup task_id dependencies) (key_error task_id)
      after ← visit_each (visit fuel dependencies (task_id ∷ stack)) visited ds
      ok (task_id ∷ after)
  ]
]

-- _validate_cycles
unfoldable pub validate_cycles : List Task → Result (List String)
unfolding dependencies_from visit_each visit
validate_cycles tasks =
    visit_each (visit (length tasks) (dependencies_from tasks []) []) [] (ids tasks)

abbrev pub issue_of {ℓ} : {A : Type ℓ} → Result A → List GraphIssue
issue_of (ok a) = []
issue_of (err e) = refused e ∷ []

-- What graph_plan finds in the tasks' ids and dependencies. The cycles are sought only where the ids
-- are unique and every dependency is known.
unfoldable pub graph_plan_issues : List Task → List GraphIssue
unfolding validate_unique graph_issues validate_cycles
graph_plan_issues tasks =
    let unique = issue_of (validate_unique (ids tasks)) in
    let references = graph_issues (ids tasks) tasks in
    unique
    ++ references
    ++ (if is_empty unique && is_empty references then issue_of (validate_cycles tasks) else [])
