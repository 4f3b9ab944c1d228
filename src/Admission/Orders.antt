-- ===== src/Admission/Orders.antt =====
-- The search for cycles and the dependency order agree, and an admitted graph has an order
-- (src/codex_autopilot/plan_admission.py and plan_graph.py).
use codex_autopilot.Prelude.{
  ℕ, zero, suc, ◌+◌, ◌≤◌, ◌<◌, String, ◌≡◌, refl, ap, ◌∙◌, subst, ◌↔◌, inl, inr, true, false, ◌&&◌,
  some, List, [], ◌∷◌, ◌++◌, arith, eq_iff, ◌==◌, if◌then◌else◌, ==_refl, Bool-cases, length, All,
  All-map, All-elem, elem, IsDistinct, Dict, lookup, insert, lookup-insert_self, lookup-insert_ne,
  Result, ok, err, is_empty, empty_of_is_empty, All-zip, append_empty, count, count_absent,
}
use codex_autopilot.Plan.{Task, ids}
use codex_autopilot.PlanGraph.{topological_order}
use codex_autopilot.PlanGraph.Counts.{absent_count, precedes}
use codex_autopilot.PlanGraph.Order.{
  IsOrder, HasKnownDependencies, IsAcyclic, topological_order-IsOrder, topological_order_total,
  length-ids,
}
use codex_autopilot.PlanGraph.Rounds.{task_at}
use codex_autopilot.Admission.{
  repeated, validate_unique, dependency_issues, graph_issues, dependencies_from, visit_each, visit,
  validate_cycles, issue_of, graph_plan_issues,
}
use codex_autopilot.Admission.Cycles.{each-IsVisit, visit-IsVisit, depth_in, grounded_depth}

dependencies_other :
    (ts : List Task) (m : Dict (List String)) (k : String)
    → elem k (ids ts) ≡ false
    → lookup k (dependencies_from ts m) ≡ lookup k m
unfolding dependencies_from
dependencies_other [] m k h = refl
dependencies_other (t ∷ ts) m k h =
    dependencies_other ts (insert t.id t.depends_on m) k (ground arith)
    ∙ lookup-insert_ne t.id k t.depends_on m (ground arith)

dependencies_lem :
    (ts : List Task) (m : Dict (List String))
    → IsDistinct (ids ts)
    → All (λ t. lookup t.id (dependencies_from ts m) ≡ some t.depends_on) ts
unfolding dependencies_from
dependencies_lem [] m h = tt
dependencies_lem (t ∷ ts) m h =
    let n = insert t.id t.depends_on m in
    (
      dependencies_other ts n t.id h.0 ∙ lookup-insert_self t.id t.depends_on m,
      dependencies_lem ts n h.1,
    )

id_facts : (P : String → Type 0) (ts : List Task) → All P (ids ts) → All (λ t. P t.id) ts
id_facts P [] h = tt
id_facts P (t ∷ ts) h = (h.0, id_facts P ts h.1)

-- A search that ends has found a measure that goes down along every dependency.
pub validate_cycles-IsAcyclic :
    (tasks : List Task) {visited : List String}
    → IsDistinct (ids tasks)
    → validate_cycles tasks ≡ ok visited
    → IsAcyclic (depth_in visited) tasks
unfolding validate_cycles
validate_cycles-IsAcyclic tasks {visited} once h =
    let D = dependencies_from tasks [] in
    let (v, there) =
      each-IsVisit D [] (visit (length tasks) D []) [] (ids tasks)
        (visit-IsVisit (length tasks) D []) h in
    All-zip tasks (λ t held e. grounded_depth D visited t.id t.depends_on (v.grounded tt) e held)
      (dependencies_lem tasks [] once) (id_facts (λ k. elem k visited ≡ true) tasks there)

module _ (tasks : List Task) (depth : String → ℕ) (once : IsDistinct (ids tasks))
    (known : HasKnownDependencies tasks) (acyclic : IsAcyclic depth tasks) where
  abbrev D : Dict (List String)
  D = dependencies_from tasks []

  -- The names under way stand higher, once each, and leave fuel for the others.
  record IsUnderWay (fuel : ℕ) (stack : List String) (k : String) : Type 0 where
    higher : All (λ j. depth k < depth j) stack
    single : (j : String) → count j stack ≤ 1
    tasks_only : (j : String) → elem j stack ≡ true → elem j (ids tasks) ≡ true
    enough : length tasks ≤ length stack + fuel

  not_under_way :
      (k : String) (stack : List String) → All (λ j. depth k < depth j) stack → elem k stack ≡ false
  not_under_way k [] h = refl
  not_under_way k (j ∷ stack) h = elim (Bool-cases (j == k)) [
    | inl same ↦ absurd (omega (arith, (subst (λ i. depth k < depth i) ((eq_iff j k).0 same) h.0)))
    | inr other ↦ rw other (not_under_way k stack h.1)
  ]

  pushed :
      (fuel : ℕ) (stack : List String) (k d : String)
      → IsUnderWay (suc fuel) stack k
      → elem k (ids tasks) ≡ true
      → depth d < depth k
      → IsUnderWay fuel (k ∷ stack) d
  unfolding count
  pushed fuel stack k d u k_known lower = record {
    higher = (lower, All-map stack (λ j h. omega (arith, h, lower)) u.higher);
    single = λ j.
        let fresh = not_under_way k stack u.higher in
        ground (arith, u.single j, count_absent j stack, fresh, eq_iff k j);
    tasks_only = λ j e. elim (Bool-cases (k == j)) [
      | inl same ↦ subst (λ i. elem i (ids tasks) ≡ true) ((eq_iff k j).0 same) k_known
      | inr other ↦ u.tasks_only j (rw other at e)
    ];
    enough = omega (arith, u.enough);
  }

  each_total :
      (step : List String → String → Result (List String)) (visited ks : List String)
      → ((visited : List String)
          → (k : String) → elem k ks ≡ true
          → (after : List String) × (step visited k ≡ ok after))
      → (after : List String) × (visit_each step visited ks ≡ ok after)
  unfolding visit_each
  each_total step visited [] f = (visited, refl)
  each_total step visited (k ∷ ks) f =
      let (next, one) = f visited k (ground (arith, ==_refl k)) in
      let (after, rest) = each_total step next ks (λ v j e. f v j (ground arith)) in
      (after, rw (one, rest) refl)

  visit_total :
      (fuel : ℕ) (stack visited : List String) (k : String)
      → IsUnderWay fuel stack k
      → elem k (ids tasks) ≡ true
      → (after : List String) × (visit fuel D stack visited k ≡ ok after)
  unfolding visit count
  visit_total zero stack visited k u k_known =
      let fresh = not_under_way k stack u.higher in
      let whole =
        absent_count (ids tasks) (k ∷ stack) once
          (λ j. ground (arith, u.single j, count_absent j stack, fresh, eq_iff k j))
          (λ j e. elim (Bool-cases (k == j)) [
            | inl same ↦ subst (λ i. elem i (ids tasks) ≡ true) ((eq_iff k j).0 same) k_known
            | inr other ↦ u.tasks_only j (rw other at e)
          ]) in
      absurd (omega (arith, whole, u.enough, length-ids tasks))
  visit_total (suc fuel) stack visited k u k_known = elim (Bool-cases (elem k visited)) [
    | inl old ↦ (visited, rw (old, visit) refl)
    | inr new ↦
        let fresh = not_under_way k stack u.higher in
        let (t, is_k, facts) =
          task_at
            (λ t.
              (lookup t.id D ≡ some t.depends_on)
              × All (λ d. (elem d (ids tasks) ≡ true) × (depth d < depth t.id)) t.depends_on)
            tasks k
            (All-zip tasks (λ t h b. (h, b)) (dependencies_lem tasks [] once)
              (All-zip tasks (λ t a b. All-zip t.depends_on (λ d p q. (p, q)) a b) known acyclic))
            k_known in
        let at_k : lookup k D ≡ some t.depends_on =
          subst (λ i. lookup i D ≡ some t.depends_on) is_k facts.0 in
        let below : All (λ d. (elem d (ids tasks) ≡ true) × (depth d < depth k)) t.depends_on =
          subst (λ i. All (λ d. (elem d (ids tasks) ≡ true) × (depth d < depth i)) t.depends_on)
            is_k facts.1 in
        let (after, each) = each_total (visit fuel D (k ∷ stack)) visited t.depends_on (λ v d e.
          let (d_known, lower) =
            All-elem (λ d. (elem d (ids tasks) ≡ true) × (depth d < depth k)) t.depends_on d below
              e in
          visit_total fuel (k ∷ stack) v d (pushed fuel stack k d u k_known lower) d_known) in
        (k ∷ after, rw (new, fresh, visit, at_k, each) refl)
  ]

  -- Where there is no cycle, the search ends.
  pub validate_cycles_total : (visited : List String) × (validate_cycles tasks ≡ ok visited)
  unfolding validate_cycles count
  validate_cycles_total = each_total (visit (length tasks) D []) [] (ids tasks) (λ v k e.
      visit_total (length tasks) [] v k
        (record {
          higher = tt;
          single = λ j. omega arith;
          tasks_only = λ j u. absurd (cc u);
          enough = omega arith;
        })
        e)

-- The place of a name in an order, counted from the front.
abbrev place : List String → String → ℕ
place [] k = 0
place (x ∷ xs) k = let n = place xs k in if x == k then 0 else suc n

precedes-place :
    (xs : List String) (d k : String) → precedes xs d k ≡ true → place xs d < place xs k
precedes-place [] d k h = cc
precedes-place (x ∷ xs) d k h = ground (arith, precedes-place xs d k)

-- If the ids are distinct and every dependency is a task, the admission's search for cycles passes
-- exactly where a dependency order is returned.
pub validate_cycles_iff :
    (tasks : List Task)
    → IsDistinct (ids tasks)
    → HasKnownDependencies tasks
    → ((visited : List String) × (validate_cycles tasks ≡ ok visited))
      ↔ ((order : List String) × (topological_order tasks ≡ ok order))
validate_cycles_iff tasks once known = (
  λ found.
      let (order, ordered, _) =
        topological_order_total tasks (depth_in found.0) once known
          (validate_cycles-IsAcyclic tasks once found.1) in
      (order, ordered),
  λ found.
      let o = topological_order-IsOrder tasks once found.1 in
      validate_cycles_total tasks (place found.0) once known (
        All-map tasks (λ t h. All-map t.depends_on (λ d p. precedes-place found.0 d t.id p) h)
          o.after),
)

issue_of_nil : (r : Result (List String)) → issue_of r ≡ [] → (a : List String) × (r ≡ ok a)
issue_of_nil (ok a) h = (a, refl)
issue_of_nil (err e) h = absurd (cc h)

repeated_nil : (xs : List String) → is_empty (repeated xs) ≡ true → IsDistinct xs
repeated_nil [] h = tt
repeated_nil (x ∷ xs) h =
    let rest_empty : is_empty (repeated xs) ≡ true = ground arith in
    let no_rest = empty_of_is_empty (repeated xs) rest_empty in
    (ground (arith, (ap (λ l. elem x l) no_rest)), repeated_nil xs rest_empty)

unique_nil : (xs : List String) → issue_of (validate_unique xs) ≡ [] → IsDistinct xs
unfolding validate_unique
unique_nil xs h = elim (Bool-cases (is_empty (repeated xs))) [
  | inl none_repeated ↦ repeated_nil xs none_repeated
  | inr some_repeated ↦ absurd (cc (rw some_repeated at h))
]

dependency_issues_nil :
    (raw : List String) (k : String) (ds : List String)
    → dependency_issues raw k ds ≡ []
    → All (λ d. elem d raw ≡ true) ds
unfolding dependency_issues
dependency_issues_nil raw k [] h = tt
dependency_issues_nil raw k (d ∷ ds) h = elim (Bool-cases (d == k)) [
  | inl itself ↦ absurd (cc (rw itself at h))
  | inr other ↦ elim (Bool-cases (elem d raw)) [
    | inl d_known ↦ (d_known, dependency_issues_nil raw k ds (rw (other, d_known) at h))
    | inr unknown ↦ absurd (cc (rw (other, unknown) at h))
  ]
]

graph_issues_nil :
    (raw : List String) (ts : List Task)
    → graph_issues raw ts ≡ []
    → All (λ t. All (λ d. elem d raw ≡ true) t.depends_on) ts
unfolding graph_issues
graph_issues_nil raw [] h = tt
graph_issues_nil raw (t ∷ ts) h =
    let (mine, others) =
      append_empty (dependency_issues raw t.id t.depends_on) (graph_issues raw ts) h in
    (dependency_issues_nil raw t.id t.depends_on mine, graph_issues_nil raw ts others)

-- If the admission finds no issue in the tasks' ids and dependencies, the dependency order of the
-- tasks is returned, and it holds every task once and nothing else, after its dependencies.
pub graph_plan_issues-ordered :
    (tasks : List Task)
    → graph_plan_issues tasks ≡ []
    → (order : List String) × (topological_order tasks ≡ ok order) × IsOrder tasks order
unfolding graph_plan_issues
graph_plan_issues-ordered tasks h =
    let unique = issue_of (validate_unique (ids tasks)) in
    let references = graph_issues (ids tasks) tasks in
    let (clean, h₂) =
      append_empty (unique ++ references)
        (if is_empty unique && is_empty references then issue_of (validate_cycles tasks) else [])
        h in
    let (no_repeat, all_known) = append_empty unique references clean in
    let sought : (is_empty unique && is_empty references) ≡ true = rw (no_repeat, all_known) refl in
    let (visited, ends) = issue_of_nil (validate_cycles tasks) (rw sought at h₂) in
    let once = unique_nil (ids tasks) no_repeat in
    topological_order_total tasks (depth_in visited) once
      (graph_issues_nil (ids tasks) tasks all_known) (validate_cycles-IsAcyclic tasks once ends)
