-- ===== src/Scheduler/Priority.antt =====
-- The priority order (PriorityScore, _priority_key, _graph_relevance). The explicit priority is
-- validated to lie in -1000000..1000000; the model holds it shifted up by 1000000. The source's
-- memo of visited tasks changes no result; its recursion is on fuel here, and running out of it
-- stands for the interpreter's RecursionError, which a cyclic graph meets.
pub mod Order
pub mod Paths
pub mod Longest
mod Examples
use codex_autopilot.Prelude.{
  ℕ, zero, suc, ◌+◌, ◌-◌, ◌*◌, ◌/◌, ◌≤◌, ◌<◌, min, max, String, ◌≡◌, refl, sym, ap, ◌∙◌, subst, ◌≢◌,
  ◌↔◌, ◌⊎◌, inl, inr, Bool, true, false, not, ◌&&◌, ◌||◌, Option, none, some, List, [], ◌∷◌, ◌++◌,
  map, arith, eq_iff, ltb, leb, nat_eq, ◌==◌, if◌then◌else◌, ==_refl, Bool-cases, Option-cases,
  length, filter_by, any, all, All, All-append, All-map, All-elem, elem, IsDistinct, Dict, lookup,
  insert, keys, get_or, is_some, lookup-insert, lookup-insert_self, lookup-insert_ne, elem-keys,
  elem-keys-insert, All-lookup, All-insert, Result, ok, err, ◌>>=◌, ◌>>◌, ensure, or_raise,
  >>=-eq-ok, ensure-eq-ok, or_raise-eq-ok, ensure-bind-eq-ok, Result-cases, length-append, is_empty,
  filter_by_empty, filter_by_none, empty_of_is_empty, keys-insert_old, filter_by_passes,
  elem-filter_by, All-of_elem, key_error, unknown_task_state, unknown_task_id,
  scheduler_graph_mismatch, active_mismatch, ready_age_unknown, serial_with_many_active,
  recursion_error, bad_availability, model_routing, sort_by, insert_sorted, IsSorted, sort_by-perm,
  sort_by-IsSorted, All-sort_by, All-insert_sorted, text_less, then_less,
}
use codex_autopilot.Plan.{Task, ids}
use codex_autopilot.Models.{pair_less}

pub record PriorityScore : Type 0 where
  pub task_id : String
  pub resource_available : Bool
  pub explicit_priority : ℕ
  pub critical_path_length : ℕ
  pub transitive_fan_out : ℕ
  pub ready_sequence : ℕ
  pub declaration_index : ℕ

-- 0 if score.resource_available else 1
abbrev tier : PriorityScore → ℕ
tier s = if s.resource_available then 0 else 1

-- _priority_key(a) < _priority_key(b); a negated component compares the other way round
unfoldable pub comes_before : PriorityScore → PriorityScore → Bool
comes_before a b = then_less (tier a) (tier b) (
    then_less b.explicit_priority a.explicit_priority (
      then_less b.critical_path_length a.critical_path_length (
        then_less b.transitive_fan_out a.transitive_fan_out (
          then_less a.ready_sequence b.ready_sequence
            (then_less a.declaration_index b.declaration_index (text_less a.task_id b.task_id))))))

unfoldable pub ordered : List PriorityScore → List PriorityScore
ordered = sort_by comes_before

-- dependents[k]: a task stands in the list once for each time that it names `k`.
count_of : String → List String → ℕ
count_of k [] = 0
count_of k (x ∷ xs) = let n = count_of k xs in if x == k then suc n else n

repeat : ℕ → String → List String → List String
repeat zero t rest = rest
repeat (suc n) t rest = t ∷ repeat n t rest

unfoldable pub dependents_of : String → List Task → List String
unfolding count_of repeat
dependents_of k [] = []
dependents_of k (t ∷ ts) = repeat (count_of k t.depends_on) t.id (dependents_of k ts)

-- max(..., default=0) over the children, where each may run out of fuel
unfoldable pub max_over : (String → Option ℕ) → List String → Option ℕ
max_over f [] = some 0
max_over f (x ∷ xs) = elim (f x) [
  | none ↦ none
  | some m ↦ elim (max_over f xs) [ none ↦ none | some n ↦ some (max m n) ]
]

unfoldable pub critical_path : ℕ → List Task → String → Option ℕ
critical_path zero tasks k = none
critical_path (suc fuel) tasks k =
    elim (max_over (critical_path fuel tasks) (dependents_of k tasks)) [
      | none ↦ none
      | some n ↦ some (1 + n)
    ]

-- set(xs) | ys, with each text once
union : List String → List String → List String
union [] ys = ys
union (x ∷ xs) ys = let rest = union xs ys in if elem x rest then rest else x ∷ rest

union_over : (String → Option (List String)) → List String → Option (List String)
unfolding union
union_over f [] = some []
union_over f (x ∷ xs) = elim (f x) [
  | none ↦ none
  | some a ↦ elim (union_over f xs) [ none ↦ none | some b ↦ some (union a b) ]
]

unfoldable pub descendants : ℕ → List Task → String → Option (List String)
unfolding union_over
descendants zero tasks k = none
descendants (suc fuel) tasks k =
    let children = dependents_of k tasks in
    elim (union_over (descendants fuel tasks) children) [
      | none ↦ none
      | some reached ↦ some (union children reached)
    ]

-- The keys of `dependents` are the ids: an unknown dependency raises.
known_dependencies : List String → List Task → Result (Unit {0})
known_dependencies known [] = ok tt
known_dependencies known (t ∷ ts) =
    ensure (all (λ d. elem d known) t.depends_on) (key_error t.id) >> known_dependencies known ts

-- The relevance of one task: its critical path and its number of descendants.
relevance : List Task → String → Result (ℕ × ℕ)
relevance tasks k = do
  path ← or_raise (critical_path (length tasks) tasks k) recursion_error
  reached ← or_raise (descendants (length tasks) tasks k) recursion_error
  ok (path, length reached)

relevances : List Task → List Task → Result (Dict (ℕ × ℕ))
unfolding relevance
relevances tasks [] = ok []
relevances tasks (t ∷ ts) = do
  r ← relevance tasks t.id
  rest ← relevances tasks ts
  ok (insert t.id r rest)

unfoldable pub graph_relevance : List Task → Result (Dict (ℕ × ℕ))
unfolding known_dependencies relevances
graph_relevance tasks = known_dependencies (ids tasks) tasks >> relevances tasks tasks
