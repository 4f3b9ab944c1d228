-- ===== src/Scheduler/Priority/Paths.antt =====
-- The fuel that the critical path and the descendants of a task need.
use codex_autopilot.Prelude.{
  ℕ, zero, suc, ◌+◌, ◌≤◌, ◌<◌, String, ◌≡◌, refl, true, Option, List, [], ◌∷◌, arith, All, All-map,
  is_some,
}
use codex_autopilot.Plan.{Task}
use codex_autopilot.Scheduler.Priority.{
  dependents_of, max_over, critical_path, descendants, union_over,
}

-- Every dependent of a task stands strictly deeper, and nothing stands deeper than the bound.
pub record IsDeepening (depth : String → ℕ) (bound : ℕ) (tasks : List Task) : Type 0 where
  pub deeper : (k : String) → All (λ d. depth k < depth d) (dependents_of k tasks)
  pub within : (k : String) → depth k < bound

max_over_total :
    (f : String → Option ℕ) (xs : List String)
    → All (λ x. is_some (f x) ≡ true) xs
    → is_some (max_over f xs) ≡ true
unfolding max_over
max_over_total f [] h = refl
max_over_total f (x ∷ xs) h = ground (arith, max_over_total f xs h.1, h.0)

union_over_total :
    (f : String → Option (List String)) (xs : List String)
    → All (λ x. is_some (f x) ≡ true) xs
    → is_some (union_over f xs) ≡ true
unfolding union_over
union_over_total f [] h = refl
union_over_total f (x ∷ xs) h = ground (arith, union_over_total f xs h.1, h.0)

module _ (depth : String → ℕ) (bound : ℕ) (tasks : List Task)
    (deep : IsDeepening depth bound tasks) where
  -- If every dependent of a task stands strictly deeper, by some measure with a bound, then with
  -- fuel for the levels below a task its critical path is found.
  pub critical_path_total :
      (fuel : ℕ) (k : String) → bound ≤ fuel + depth k → is_some (critical_path fuel tasks k) ≡ true
  unfolding critical_path
  critical_path_total zero k h = absurd (omega (arith, deep.within k))
  critical_path_total (suc fuel) k h =
      let kids = dependents_of k tasks in
      let found = max_over_total (critical_path fuel tasks) kids (
        All-map kids (λ d lt. critical_path_total fuel d (omega (arith, lt, h))) (deep.deeper k)) in
      ground (arith, found)

  -- If every dependent of a task stands strictly deeper, by some measure with a bound, then with
  -- fuel for the levels below a task its descendants are found.
  pub descendants_total :
      (fuel : ℕ) (k : String) → bound ≤ fuel + depth k → is_some (descendants fuel tasks k) ≡ true
  unfolding descendants
  descendants_total zero k h = absurd (omega (arith, deep.within k))
  descendants_total (suc fuel) k h =
      let kids = dependents_of k tasks in
      let found =
        union_over_total (descendants fuel tasks) kids (
          All-map kids (λ d lt. descendants_total fuel d (omega (arith, lt, h))) (deep.deeper k)) in
      ground (arith, found)
