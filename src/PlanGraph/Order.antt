-- ===== src/PlanGraph/Order.antt =====
-- The dependency order is one, and there is one wherever the tasks have no cycle (topological_order of
-- src/codex_autopilot/plan_graph.py).
use codex_autopilot.Prelude.{
  ℕ, zero, suc, ◌+◌, ◌≤◌, ◌<◌, String, ◌≡◌, refl, sym, ap, ◌∙◌, subst, inl, inr, Bool, true, ◌||◌,
  Option, some, List, [], ◌∷◌, ◌++◌, arith, nat_eq, ==_refl, Option-cases, length, All, All-map,
  elem, IsDistinct, Dict, lookup, insert, keys, elem-keys, All-lookup, ok, >>=-eq-ok,
  ensure-bind-eq-ok, length-append, keys-insert_old, ok-injective, append_nil, All-zip, count,
  elem-append, All-of_elem, sort_by, All-sort_by,
}
use codex_autopilot.Plan.{Task, ids}
use codex_autopilot.PlanGraph.{
  ranks_from, indegrees_from, no_dependents, add_dependent, add_dependents, rank_before, roots,
  take_ready, topological_order,
}
use codex_autopilot.PlanGraph.Counts.{
  count-sort_by, elem-sort_by, count-append, missing_of, missing_none, none_missing, missing_of_all,
  precedes, absent_from, absent_count,
}
use codex_autopilot.PlanGraph.Children.{
  HasChildrenIn, no_dependents-HasChildrenIn, add_dependents-HasChildrenIn,
}
use codex_autopilot.PlanGraph.Dependents.{
  tasks_named, dependents_counted, dependents_known, indegrees_lem, indegrees-IsDistinct, roots_lem,
  roots_once, roots_known, zero_at, no_dependents_lem,
}
use codex_autopilot.PlanGraph.Rounds.{IsRound, remaining, release_all, take_one, task_at}

pub length-ids : (ts : List Task) → length (ids ts) ≡ length ts
length-ids [] = refl
length-ids (t ∷ ts) = ap (λ n. suc n) (length-ids ts)

module _ (tasks : List Task) (distinct_ids : IsDistinct (ids tasks)) where
  -- Done and ready tasks stand once each, so they and the others are all the tasks.
  accounted :
      (result ready pending : List String) (indegree : Dict (Option ℕ))
      → IsRound tasks result ready indegree pending
      → length (result ++ ready) + absent_from (ids tasks) (result ++ ready) ≡ length tasks
  accounted result ready pending indegree r =
      absent_count (ids tasks) (result ++ ready) distinct_ids
        (λ k. ground (arith, r.once k, count-append k result ready))
        (λ k e. r.known k (sym (elem-append k result ready) ∙ e))
      ∙ length-ids tasks

  starts :
      (before : String → String → Bool)
      → IsRound tasks []
          (sort_by before (roots (indegrees_from tasks [])))
          (indegrees_from tasks [])
          []
  unfolding count
  starts before =
      let I = indegrees_from tasks [] in
      let keys_once = indegrees-IsDistinct tasks [] tt in
      record {
        counted =
            All-map tasks
              (λ t h. h ∙ ap (λ n. some (some n)) (omega (arith, missing_of_all t.depends_on)))
              (indegrees_lem tasks [] distinct_ids);
        once = λ k. omega (arith, count-sort_by before k (roots I), roots_once k I keys_once);
        known = λ k e. roots_known tasks k (sym (elem-sort_by before k (roots I)) ∙ e);
        free =
            All-map tasks
              (λ t h.
                let is_root : elem t.id (roots I) ≡ nat_eq (length t.depends_on) 0 =
                  roots_lem t.id I keys_once ∙ ap zero_at h in
                let none_done : remaining t [] [] ≡ length t.depends_on =
                  omega (arith, missing_of_all t.depends_on) in
                elem-sort_by before t.id (roots I) ∙ is_root ∙ ap (λ n. nat_eq n 0) (sym none_done))
              (indegrees_lem tasks [] distinct_ids);
        ordered = All-map tasks (λ t h e. absurd (cc e)) (tasks_named tasks);
      }

  module _ (rank : Dict ℕ) {D : Dict (List String)}
      (built : add_dependents tasks (no_dependents tasks []) ≡ ok D) where
    children_named : HasChildrenIn (ids tasks) D
    children_named =
        add_dependents-HasChildrenIn (ids tasks) tasks (no_dependents tasks []) built
          (All-of_elem (λ k. elem k (ids tasks) ≡ true) (ids tasks) (λ k e. e))
          (no_dependents-HasChildrenIn (ids tasks) tasks [] tt)

    abbrev before : String → String → Bool
    before = rank_before rank

    -- With enough rounds the loop ends, and nothing is ready then.
    runs :
        (fuel : ℕ) (result ready : List String) (indegree : Dict (Option ℕ))
        → IsRound tasks result ready indegree []
        → length tasks ≤ length result + fuel
        → (order : List String) × (end : Dict (Option ℕ)) × (take_ready rank fuel D indegree ready
              result
            ≡ ok order)
          × IsRound tasks order [] end []
    unfolding take_ready
    runs fuel result [] indegree r enough = (result, indegree, refl, r)
    runs zero result (c ∷ ready) indegree r enough = absurd (
        omega (
          arith,
          accounted result (c ∷ ready) [] indegree r,
          enough,
          length-append result (c ∷ ready),
        ))
    runs (suc fuel) result (c ∷ ready) indegree r enough =
        let c_known = r.known c (ground (arith, ==_refl c)) in
        let (freed, held) = dependents_known tasks c built c_known in
        let sorted = sort_by before freed in
        let counts =
          All-map tasks (λ t n. count-sort_by before t.id freed ∙ n)
            (dependents_counted tasks c freed built distinct_ids c_known held) in
        let named =
          All-sort_by before (λ d. elem d (ids tasks) ≡ true) freed
            (All-lookup (λ entry. All (λ d. elem d (ids tasks) ≡ true) entry.1) D c freed
              children_named held) in
        let taken = take_one tasks result ready sorted c indegree r counts in
        let (next, released, s) =
          release_all rank tasks (result ++ c ∷ []) sorted ready indegree taken named in
        let (order, end, rest, last) =
          runs fuel (result ++ c ∷ []) next.1 next.0 s
            (omega (arith, enough, length-append result (c ∷ []))) in
        (order, end, rw (held, released, rest) refl, last)

-- Every task stands once in the order, after all that it depends on.
pub record IsOrder (tasks : List Task) (order : List String) : Type 0 where
  pub once : (k : String) → count k order ≤ 1
  pub known : (k : String) → elem k order ≡ true → elem k (ids tasks) ≡ true
  pub complete : All (λ t. elem t.id order ≡ true) tasks
  pub after : All (λ t. All (λ d. precedes order d t.id ≡ true) t.depends_on) tasks

task_elems : (P : String → Type 0) (ts : List Task) → All P (ids ts) → All (λ t. P t.id) ts
task_elems P [] h = tt
task_elems P (t ∷ ts) h = (h.0, task_elems P ts h.1)

round-IsOrder :
    (tasks : List Task) (order : List String) (end : Dict (Option ℕ))
    → IsDistinct (ids tasks)
    → IsRound tasks order [] end []
    → length order ≡ length tasks
    → IsOrder tasks order
unfolding count
round-IsOrder tasks order end distinct_ids r whole =
    let none_absent : missing_of (ids tasks) order ≡ 0 = omega (
      arith,
      (subst (λ xs. length xs + absent_from (ids tasks) xs ≡ length tasks) (append_nil order)
          (accounted tasks distinct_ids order [] [] end r)),
      whole,
    ) in
    let complete =
      task_elems (λ k. elem k order ≡ true) tasks (missing_none (ids tasks) order none_absent) in
    record {
      once = λ k. omega (arith, r.once k);
      known = λ k e. r.known k (rw e refl);
      complete = complete;
      after = All-zip tasks (λ t old e. old e) r.ordered complete;
    }

-- If the tasks' ids are distinct and an order is returned, it holds every task once and nothing
-- else, and each of a task's dependencies stands before it.
pub topological_order-IsOrder :
    (tasks : List Task) {order : List String}
    → IsDistinct (ids tasks)
    → topological_order tasks ≡ ok order
    → IsOrder tasks order
unfolding topological_order
topological_order-IsOrder tasks {order} distinct_ids h =
    let rank = ranks_from 0 tasks [] in
    let start = sort_by (rank_before rank) (roots (indegrees_from tasks [])) in
    let (D, built, h₁) = >>=-eq-ok (add_dependents tasks (no_dependents tasks [])) _ h in
    let (result, taken, h₂) =
      >>=-eq-ok (take_ready rank (length tasks) D (indegrees_from tasks []) start []) _ h₁ in
    let (whole, h₃) = ensure-bind-eq-ok (nat_eq (length result) (length tasks)) _ _ h₂ in
    let (found, end, ran, r) =
      runs tasks distinct_ids rank built (length tasks) [] start (indegrees_from tasks [])
        (starts tasks distinct_ids (rank_before rank)) (omega arith) in
    let same : found ≡ order = ok-injective (sym ran ∙ taken ∙ h₃) in
    let same_result : result ≡ order = ok-injective h₃ in
    let long : length order ≡ length tasks =
      subst (λ xs. length xs ≡ length tasks) same_result (ground arith) in
    round-IsOrder tasks order end distinct_ids (subst (λ xs. IsRound tasks xs [] end []) same r)
      long

-- Dependencies that are tasks.
abbrev pub HasKnownDependencies : List Task → Type 0
HasKnownDependencies tasks = All (λ t. All (λ d. elem d (ids tasks) ≡ true) t.depends_on) tasks

-- `depth` goes down along every dependency, so that there is no cycle.
abbrev pub IsAcyclic : (String → ℕ) → List Task → Type 0
IsAcyclic depth tasks = All (λ t. All (λ d. depth d < depth t.id) t.depends_on) tasks

add_dependent_total :
    (new : String) (ds : List String) (D : Dict (List String))
    → All (λ d. elem d (keys D) ≡ true) ds
    → (D' : Dict (List String)) × (add_dependent new ds D ≡ ok D') × (keys D' ≡ keys D)
unfolding add_dependent
add_dependent_total new [] D h = (D, refl, refl)
add_dependent_total new (d ∷ ds) D h = elim (Option-cases (lookup d D)) [
  | inl absent ↦ absurd (cc (elem-keys d D, absent, h.0))
  | inr found ↦
      let grown = insert d (found.0 ++ new ∷ []) D in
      let same : keys grown ≡ keys D = keys-insert_old d (found.0 ++ new ∷ []) D h.0 in
      let (D', added, kept) =
        add_dependent_total new ds grown
          (subst (λ ks. All (λ e. elem e ks ≡ true) ds) (sym same) h.1) in
      (D', rw (found.1, added) refl, kept ∙ same)
]

add_dependents_total :
    (ts : List Task) (D : Dict (List String))
    → All (λ t. All (λ d. elem d (keys D) ≡ true) t.depends_on) ts
    → (D' : Dict (List String)) × (add_dependents ts D ≡ ok D')
unfolding add_dependents
add_dependents_total [] D h = (D, refl)
add_dependents_total (t ∷ ts) D h =
    let (next, first, same) = add_dependent_total t.id t.depends_on D h.0 in
    let (D', rest) =
      add_dependents_total ts next
        (subst (λ ks. All (λ u. All (λ d. elem d ks ≡ true) u.depends_on) ts) (sym same) h.1) in
    (D', rw (first, rest) refl)

each_at :
    (P : ℕ → Task → Type 0) (n : Task → ℕ) (ts : List Task)
    → ((k : ℕ) → All (P k) ts)
    → All (λ t. P (n t) t) ts
each_at P n [] h = tt
each_at P n (t ∷ ts) h = ((h (n t)).0, each_at P n ts (λ k. (h k).1))

-- At the end, the tasks of every depth are done.
depth_done :
    (tasks : List Task) (depth : String → ℕ) (order : List String) (end : Dict (Option ℕ))
    → HasKnownDependencies tasks
    → IsAcyclic depth tasks
    → IsRound tasks order [] end []
    → (n : ℕ) → All (λ t. depth t.id < n → elem t.id order ≡ true) tasks
unfolding count
depth_done tasks depth order end known acyclic r zero =
    All-map tasks (λ t h less. absurd (omega (arith, less))) r.free
depth_done tasks depth order end known acyclic r (suc n) =
    let lower = depth_done tasks depth order end known acyclic r n in
    All-zip tasks
      (λ (t : Task) (f : (elem t.id order || elem t.id []) ≡ nat_eq (remaining t order []) 0)
          (deps : All (λ d. (elem d (ids tasks) ≡ true) × (depth d < depth t.id)) t.depends_on)
          (less : depth t.id < suc n).
        let done : All (λ d. elem d order ≡ true) t.depends_on =
          All-map t.depends_on
            (λ d e.
              let (u, same, lower_done) =
                task_at (λ u. depth u.id < n → elem u.id order ≡ true) tasks d lower e.0 in
              subst (λ k. elem k order ≡ true) same
                (lower_done (subst (λ k. depth k < n) (sym same) (omega (arith, less, e.1)))))
            deps in
        let none_left = none_missing t.depends_on order done in
        let free_now : nat_eq (remaining t order []) 0 ≡ true = rw none_left refl in
        ground (arith, f, free_now))
      r.free (All-zip tasks (λ t k a. All-zip t.depends_on (λ d e l. (e, l)) k a) known acyclic)

elem-ids-keys :
    (ts : List Task) (d : String)
    → elem d (ids ts) ≡ true
    → elem d (keys (no_dependents ts [])) ≡ true
elem-ids-keys ts d h = rw (elem-keys, no_dependents_lem, h) refl

-- If the tasks' ids are distinct, every dependency is a task, and some measure goes down along
-- every dependency, then an order is returned, and it holds every task once and nothing else, after
-- its dependencies.
pub topological_order_total :
    (tasks : List Task) (depth : String → ℕ)
    → IsDistinct (ids tasks)
    → HasKnownDependencies tasks
    → IsAcyclic depth tasks
    → (order : List String) × (topological_order tasks ≡ ok order) × IsOrder tasks order
unfolding topological_order
topological_order_total tasks depth distinct_ids known acyclic =
    let rank = ranks_from 0 tasks [] in
    let start = sort_by (rank_before rank) (roots (indegrees_from tasks [])) in
    let (D, built) =
      add_dependents_total tasks (no_dependents tasks [])
        (All-map tasks (λ t k. All-map t.depends_on (λ d e. elem-ids-keys tasks d e) k) known) in
    let (order, end, ran, r) =
      runs tasks distinct_ids rank built (length tasks) [] start (indegrees_from tasks [])
        (starts tasks distinct_ids (rank_before rank)) (omega arith) in
    let complete : All (λ t. elem t.id order ≡ true) tasks =
      All-map tasks (λ t h. h (omega arith))
        (each_at (λ n t. depth t.id < n → elem t.id order ≡ true) (λ t. suc (depth t.id)) tasks
          (depth_done tasks depth order end known acyclic r)) in
    let whole : length order ≡ length tasks = omega (
      arith,
      (subst (λ xs. length xs + absent_from (ids tasks) xs ≡ length tasks) (append_nil order)
          (accounted tasks distinct_ids order [] [] end r)),
      none_missing (ids tasks) order (ids_done tasks order complete),
    ) in
    let passes : nat_eq (length order) (length tasks) ≡ true = ground (arith, whole) in
    (order, rw (built, ran, passes) refl, round-IsOrder tasks order end distinct_ids r whole)
  where
    ids_done :
        (ts : List Task) (xs : List String)
        → All (λ t. elem t.id xs ≡ true) ts
        → All (λ k. elem k xs ≡ true) (ids ts)
    ids_done [] xs h = tt
    ids_done (t ∷ ts) xs h = (h.0, ids_done ts xs h.1)
