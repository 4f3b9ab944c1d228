-- ===== src/PlanGraph.antt =====
-- The stable dependency order of a plan's tasks (topological_order of
-- src/codex_autopilot/plan_graph.py). Every round of the loop takes one task off `ready`, and a task
-- comes there once, so that as many rounds as there are tasks are enough.
pub mod Counts
pub mod Children
pub mod Dependents
pub mod Rounds
pub mod Order
mod Examples
use codex_autopilot.Prelude.{
  ℕ, zero, suc, ◌+◌, ◌-◌, ◌*◌, ◌/◌, ◌≤◌, ◌<◌, min, max, String, ◌≡◌, refl, sym, ap, ◌∙◌, subst, ◌≢◌,
  ◌↔◌, ◌⊎◌, inl, inr, Bool, true, false, not, ◌&&◌, ◌||◌, Option, none, some, List, [], ◌∷◌, ◌++◌,
  map, arith, eq_iff, ltb, leb, nat_eq, ◌==◌, if◌then◌else◌, ==_refl, Bool-cases, Option-cases,
  length, filter_by, any, all, All, All-append, All-map, All-elem, elem, IsDistinct, Dict, lookup,
  insert, keys, get_or, is_some, lookup-insert, lookup-insert_self, lookup-insert_ne, elem-keys,
  elem-keys-insert, All-lookup, All-insert, Result, ok, err, ◌>>=◌, ◌>>◌, ensure, or_raise,
  >>=-eq-ok, ensure-eq-ok, or_raise-eq-ok, ensure-bind-eq-ok, Result-cases, length-append, is_empty,
  filter_by_empty, filter_by_none, empty_of_is_empty, keys-insert_old, All-of_sort_by, bind-ok,
  same_texts, delete, append_nil, All-zip, append_empty, map_empty, filter_by_nil, All-snoc, count,
  count_absent, count_distinct, elem-append, filter_by_passes, elem-filter_by, All-of_elem,
  text_less, then_less, then_less_asym, then_less_trans, then_less_trans_down, text_less_asym,
  text_less_trans, invalid_state, plan_change_conflict, plan_change_state_conflict,
  plan_change_protocol, bad_observation, graph_cycle, bad_resource_state, bad_lock_owner,
  bad_execution_mode, token_is_bound, bad_claim, key_error, unknown_task_state, unknown_task_id,
  scheduler_graph_mismatch, active_mismatch, ready_age_unknown, serial_with_many_active,
  recursion_error, bad_availability, model_routing, sort_by, insert_sorted, IsSorted, sort_by-perm,
  sort_by-IsSorted, All-sort_by, All-insert_sorted,
}
use codex_autopilot.Plan.{Task}

-- {task.id: index for index, task in enumerate(plan.tasks)}, from `n` on
unfoldable pub ranks_from : ℕ → List Task → Dict ℕ → Dict ℕ
ranks_from n [] rank = rank
ranks_from n (t ∷ ts) rank = ranks_from (suc n) ts (insert t.id n rank)

-- A count that went below zero is `none`: it is never zero again.
unfoldable pub indegrees_from : List Task → Dict (Option ℕ) → Dict (Option ℕ)
indegrees_from [] indegree = indegree
indegrees_from (t ∷ ts) indegree =
    indegrees_from ts (insert t.id (some (length t.depends_on)) indegree)

unfoldable pub no_dependents : List Task → Dict (List String) → Dict (List String)
no_dependents [] dependents = dependents
no_dependents (t ∷ ts) dependents = no_dependents ts (insert t.id [] dependents)

-- for dependency in task.depends_on: dependents[dependency].append(task.id)
unfoldable pub add_dependent :
    String → List String → Dict (List String) → Result (Dict (List String))
add_dependent task_id [] dependents = ok dependents
add_dependent task_id (d ∷ ds) dependents = do
  known ← or_raise (lookup d dependents) (key_error d)
  add_dependent task_id ds (insert d (known ++ task_id ∷ []) dependents)

unfoldable pub add_dependents : List Task → Dict (List String) → Result (Dict (List String))
unfolding add_dependent
add_dependents [] dependents = ok dependents
add_dependents (t ∷ ts) dependents = do
  next ← add_dependent t.id t.depends_on dependents
  add_dependents ts next

unfoldable pub rank_before : Dict ℕ → String → String → Bool
rank_before rank a b = ltb (get_or 0 (lookup a rank)) (get_or 0 (lookup b rank))

abbrev pub is_zero : Option ℕ → Bool
is_zero none = false
is_zero (some n) = nat_eq n 0

-- [task_id for task_id, count in indegree.items() if count == 0]
abbrev pub roots : Dict (Option ℕ) → List String
roots [] = []
roots ((k, n) ∷ m) = let rest = roots m in if is_zero n then k ∷ rest else rest

abbrev pub decrement : Option ℕ → Option ℕ
decrement none = none
decrement (some zero) = none
decrement (some (suc n)) = some n

module _ (rank : Dict ℕ) where
  -- One dependent of the task that was taken.
  unfoldable pub release_dependent :
      Dict (Option ℕ) × List String → String → Result (Dict (Option ℕ) × List String)
  unfolding rank_before
  release_dependent (indegree, ready) dependent = do
    n ← or_raise (lookup dependent indegree) (key_error dependent)
    let left = decrement n
    ok (
      insert dependent left indegree,
      if is_zero left then sort_by (rank_before rank) (ready ++ dependent ∷ []) else ready,
    )

  unfoldable pub release_dependents :
      Dict (Option ℕ) × List String → List String → Result (Dict (Option ℕ) × List String)
  unfolding release_dependent
  release_dependents state [] = ok state
  release_dependents state (d ∷ ds) = do
    next ← release_dependent state d
    release_dependents next ds

  -- The loop, for at most so many rounds.
  unfoldable pub take_ready :
      ℕ → Dict (List String) → Dict (Option ℕ) → List String → List String → Result (List String)
  unfolding release_dependents
  take_ready fuel dependents indegree [] result = ok result
  take_ready zero dependents indegree (current ∷ ready) result = ok result
  take_ready (suc fuel) dependents indegree (current ∷ ready) result = do
    freed ← or_raise (lookup current dependents) (key_error current)
    next ← release_dependents (indegree, ready) (sort_by (rank_before rank) freed)
    take_ready fuel dependents next.0 next.1 (result ++ current ∷ [])

unfoldable pub topological_order : List Task → Result (List String)
unfolding ranks_from indegrees_from no_dependents add_dependents rank_before take_ready
topological_order tasks = do
  let rank = ranks_from 0 tasks []
  let indegree = indegrees_from tasks []
  dependents ← add_dependents tasks (no_dependents tasks [])
  result ←
      take_ready rank (length tasks) dependents indegree
        (sort_by (rank_before rank) (roots indegree)) []
  ensure (nat_eq (length result) (length tasks)) graph_cycle
  ok result
