-- ===== src/PlanGraph/Examples.antt =====
-- Concrete runs of src/codex_autopilot/plan_graph.py.
use codex_autopilot.Prelude.{
  ℕ, String, ◌≡◌, refl, List, [], ◌∷◌, arith, ◌==◌, if◌then◌else◌, IsDistinct, lookup, insert, ok,
  err, graph_cycle, sort_by, insert_sorted,
}
use codex_autopilot.Plan.{ids}
use codex_autopilot.PlanGraph.Order.{IsOrder, topological_order-IsOrder, topological_order_total}
use codex_autopilot.Samples.{plan, task}
use codex_autopilot.PlanGraph.{
  ranks_from, indegrees_from, no_dependents, add_dependent, add_dependents, rank_before,
  release_dependent, release_dependents, take_ready, topological_order,
}

program : Unit {0}
unfolding lookup insert insert_sorted sort_by ranks_from indegrees_from no_dependents add_dependent
    add_dependents rank_before release_dependent release_dependents take_ready topological_order
program = tt

-- Ties go by the place in the plan.
diamond : topological_order plan.tasks ≡ ok ("A" ∷ "B" ∷ "C" ∷ "D" ∷ [])
unfolding program
diamond = refl

backwards :
    topological_order (task "C" ("B" ∷ "B" ∷ []) 1 ∷ task "B" ("A" ∷ []) 1 ∷ task "A" [] 1 ∷ [])
    ≡ ok ("A" ∷ "B" ∷ "C" ∷ [])
unfolding program
backwards = refl

cycle : topological_order (task "A" ("B" ∷ []) 1 ∷ task "B" ("A" ∷ []) 1 ∷ []) ≡ err graph_cycle
unfolding program
cycle = refl

plan-IsDistinct : IsDistinct (ids plan.tasks)
plan-IsDistinct = (refl, (refl, (refl, (refl, tt))))

topological_order-IsOrder_example : IsOrder plan.tasks ("A" ∷ "B" ∷ "C" ∷ "D" ∷ [])
topological_order-IsOrder_example = topological_order-IsOrder plan.tasks plan-IsDistinct diamond

abbrev depth : String → ℕ
depth k = if k == "A" then 0 else if k == "D" then 2 else 1

topological_order_total_example :
    (order : List String) × (topological_order plan.tasks ≡ ok order) × IsOrder plan.tasks order
topological_order_total_example =
    topological_order_total plan.tasks depth plan-IsDistinct
      (tt, ((refl, tt), ((refl, tt), ((refl, (refl, tt)), tt))))
      (tt, ((omega arith, tt), ((omega arith, tt), ((omega arith, (omega arith, tt)), tt))))
