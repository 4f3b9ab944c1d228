-- ===== src/Scheduler/Priority/Examples.antt =====
-- The longest paths of a small plan, in which B and C rest on A, and D on both.
use codex_autopilot.Prelude.{
  ℕ, ◌<◌, String, ◌≡◌, arith, eq_iff, ◌==◌, if◌then◌else◌, All, Dict, ok, refl, length,
}
use codex_autopilot.Plan.{ids}
use codex_autopilot.Samples.{plan}
use codex_autopilot.Scheduler.Priority.Longest.{IsClosed, IsRelevance, graph_relevance-longest}
use codex_autopilot.Scheduler.Priority.{dependents_of, graph_relevance}
use codex_autopilot.Scheduler.Priority.Paths.{IsDeepening}

abbrev depth : String → ℕ
depth k =
    if k == "A"
    then 0
    else if k == "B"
    then 1
    else if k == "C"
    then 1
    else if k == "D"
    then 2
    else 0

deepens : (k : String) → All (λ d. depth k < depth d) (dependents_of k plan.tasks)
unfolding dependents_of
deepens k = ground (
  arith,
  eq_iff k "A",
  eq_iff k "B",
  eq_iff k "C",
  eq_iff k "D",
  eq_iff "A" k,
  eq_iff "B" k,
  eq_iff "C" k,
)

shallow : (k : String) → depth k < 4
shallow k = ground arith

deepening : IsDeepening depth (length plan.tasks) plan.tasks
deepening = record { deeper = deepens; within = shallow }

closed : IsClosed plan.tasks
closed = (tt, ((refl, tt), ((refl, tt), ((refl, (refl, tt)), tt))))

graph_relevance-longest_example :
    (table : Dict (ℕ × ℕ)) × (graph_relevance plan.tasks ≡ ok table)
    × All (IsRelevance plan.tasks table) (ids plan.tasks)
graph_relevance-longest_example = graph_relevance-longest depth plan.tasks deepening closed
