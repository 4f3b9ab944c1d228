-- ===== src/Resources/Snapshot/Separates.antt =====
-- The tasks that `schedule` selects on a built snapshot claim resources that do not conflict.
use codex_autopilot.Prelude.{
  String, ◌≡◌, refl, ap, inl, inr, true, false, not, ◌&&◌, some, List, [], ◌∷◌, arith, eq_iff, ◌==◌,
  if◌then◌else◌, Bool-cases, All, All-map, elem, Dict, lookup, insert, get_or, lookup-insert, ok,
  >>=-eq-ok, All-zip, elem-filter_by,
}
use codex_autopilot.Plan.{Plan, ids}
use codex_autopilot.Plan.Ids.{is_some-find_task}
use codex_autopilot.RunState.{RunState}
use codex_autopilot.TaskState.Gate.{IsEligible}
use codex_autopilot.Scheduler.Availability.{Availability}
use codex_autopilot.Scheduler.Decision.{Decision, schedule}
use codex_autopilot.Scheduler.Decision.Selection.{IsCompatible, HasDistinctCapabilities}
use codex_autopilot.Scheduler.Decision.Limits.{schedule-IsSafe}
use codex_autopilot.Resources.Conflicts.{bundles_conflict}
use codex_autopilot.Resources.Journal.{validate_persisted_resource_state}
use codex_autopilot.Resources.Normalize.{Host}
use codex_autopilot.Resources.Snapshot.{
  Bundles, bundle_of, table, conflicting, normalize_all, IncidentSnapshot,
  build_scheduler_availability,
}

lookup-table :
    {V : Type 0} (f : String → V) (ks : List String) (m : Dict V) (k : String)
    → lookup k (table f ks m) ≡ (if elem k ks then some (f k) else lookup k m)
unfolding table
lookup-table f [] m k = refl
lookup-table f (j ∷ ks) m k = elim (Bool-cases (j == k)) [
  | inl same ↦
      let e : f j ≡ f k = ap f ((eq_iff j k).0 same) in
      ground (arith, lookup-table f ks (insert j (f j) m) k, lookup-insert j k (f j) m, e)
  | inr other ↦ ground (arith, lookup-table f ks (insert j (f j) m) k, lookup-insert j k (f j) m)
]

known_of_eligible :
    (plan : Plan) (m : Dict String) (k : String)
    → IsEligible plan m k
    → elem k (ids plan.tasks) ≡ true
known_of_eligible plan m k el = ground (arith, is_some-find_task k plan.tasks, el.found)

module _ (host : Host) (normalized : Bundles) where
  -- The bundles of two tasks do not conflict.
  abbrev pub AreApart : String → String → Type 0
  AreApart j k =
      bundles_conflict host.fnmatchcase host.casefold (bundle_of normalized j)
        (bundle_of normalized k)
      ≡ false

  -- No task of the list conflicts with a different one that stands before it.
  abbrev pub IsSeparated : List String → Type 0
  IsSeparated [] = Unit
  IsSeparated (x ∷ xs) = All (λ y. (y == x) ≡ false → AreApart y x) xs × IsSeparated xs

  module _ (known : List String) (a : Availability)
      (built : a.resource_conflicts ≡ table (conflicting host known normalized) known []) where
    apart_of_absent :
        (x y : String)
        → elem x known ≡ true
        → elem y known ≡ true
        → elem x (get_or [] (lookup y a.resource_conflicts)) ≡ false
        → (y == x) ≡ false
        → AreApart y x
    unfolding conflicting
    apart_of_absent x y x_known y_known absent other =
        let found : lookup y a.resource_conflicts ≡ some (conflicting host known normalized y) =
          rw (built, lookup-table (conflicting host known normalized) known [] y, y_known) refl in
        let gone : elem x (conflicting host known normalized y) ≡ false = rw found at absent in
        ground (
          arith,
          elem-filter_by
              (λ o.
                not (y == o)
                && bundles_conflict host.fnmatchcase host.casefold (bundle_of normalized y)
                    (bundle_of normalized o))
              known x,
          gone,
        )

    separated :
        (xs : List String) → All (λ x. elem x known ≡ true) xs → IsCompatible a xs → IsSeparated xs
    separated [] k c = tt
    separated (x ∷ xs) k c = (
      All-zip xs (λ y y_known absent other. apart_of_absent x y k.0 y_known absent other) k.1 c.0,
      separated xs k.1 c.1,
    )

-- If no task names a capability twice, and `schedule` returns a decision on a snapshot that was
-- built from the locks, then the normalized claims of any two different tasks that it selects do
-- not conflict.
pub build_scheduler_availability-IsSeparated :
    (host : Host) (root : String) (digest : Plan → String) (plan : Plan) (state : RunState)
    (snapshot : IncidentSnapshot) {a : Availability} {after : RunState} {d : Decision}
    → HasDistinctCapabilities plan
    → build_scheduler_availability host root plan state snapshot ≡ ok a
    → schedule digest plan state a ≡ (after, ok d)
    → (normalized : Bundles) × (normalize_all host root plan.tasks [] ≡ ok normalized)
      × IsSeparated host normalized d.selected_task_ids
unfolding build_scheduler_availability
build_scheduler_availability-IsSeparated host root digest plan state snapshot {a} {after} {d}
      distinct h scheduled =
    let (locks, _, h₁) =
      >>=-eq-ok
        (validate_persisted_resource_state host.fnmatchcase host.casefold state.resource_locks
          state.resource_lock_journal state.resource_journal_sequence)
        _ h in
    let (normalized, read, h₂) = >>=-eq-ok (normalize_all host root plan.tasks []) _ h₁ in
    let known = ids plan.tasks in
    let built : a.resource_conflicts ≡ table (conflicting host known normalized) known [] = cc h₂ in
    let safe = schedule-IsSafe digest plan state a distinct scheduled in
    let in_plan =
      All-map d.selected_task_ids (λ k launch. known_of_eligible plan after.task_states k launch.1)
        safe.launchable in
    (
      normalized,
      read,
      separated host normalized known a built d.selected_task_ids in_plan safe.compatible,
    )
