-- ===== src/Admission/Examples.antt =====
-- Concrete graphs (src/codex_autopilot/plan_admission.py).
use codex_autopilot.Prelude.{
  String, ◌≡◌, refl, ◌↔◌, List, [], ◌∷◌, lookup, insert, ok, text_less, graph_cycle, sort_by,
  insert_sorted,
}
use codex_autopilot.Samples.{plan, task}
use codex_autopilot.PlanGraph.{topological_order}
use codex_autopilot.PlanGraph.Order.{IsOrder}
use codex_autopilot.Admission.{
  validate_unique, references_unknown, depends_on_itself, refused, dependency_issues, graph_issues,
  dependencies_from, visit_each, visit, validate_cycles, graph_plan_issues,
}
use codex_autopilot.Admission.Orders.{validate_cycles_iff, graph_plan_issues-ordered}
use codex_autopilot.Prelude.{not_unique}

program : Unit {0}
unfolding lookup insert insert_sorted sort_by text_less validate_unique dependency_issues
    graph_issues dependencies_from visit_each visit validate_cycles graph_plan_issues
program = tt

diamond-clean : graph_plan_issues plan.tasks ≡ []
unfolding program
diamond-clean = refl

-- A cycle is named where nothing else is wrong.
cyclic :
    graph_plan_issues (task "A" ("B" ∷ []) 1 ∷ task "B" ("A" ∷ []) 1 ∷ [])
    ≡ refused graph_cycle ∷ []
unfolding program
cyclic = refl

unknown :
    graph_plan_issues (task "A" ("A" ∷ "C" ∷ []) 1 ∷ task "B" [] 1 ∷ [])
    ≡ depends_on_itself "A" ∷ references_unknown "A" "C" ∷ []
unfolding program
unknown = refl

twice :
    graph_plan_issues (task "A" [] 1 ∷ task "A" [] 2 ∷ []) ≡ refused (not_unique ("A" ∷ [])) ∷ []
unfolding program
twice = refl

graph_plan_issues-ordered_example :
    (order : List String) × (topological_order plan.tasks ≡ ok order) × IsOrder plan.tasks order
graph_plan_issues-ordered_example = graph_plan_issues-ordered plan.tasks diamond-clean

validate_cycles_iff_example :
    ((visited : List String) × (validate_cycles plan.tasks ≡ ok visited))
    ↔ ((order : List String) × (topological_order plan.tasks ≡ ok order))
validate_cycles_iff_example =
    validate_cycles_iff plan.tasks (refl, (refl, (refl, (refl, tt))))
      (tt, ((refl, tt), ((refl, tt), ((refl, (refl, tt)), tt))))
