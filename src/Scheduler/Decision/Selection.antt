-- ===== src/Scheduler/Decision/Selection.antt =====
-- The greedy pass: what a selected task meets, and what the selection as a whole keeps.
use codex_autopilot.Prelude.{
  ℕ, ◌≤◌, ◌<◌, String, ◌≡◌, refl, sym, subst, inl, inr, Bool, false, some, List, [], ◌∷◌, ◌++◌, map,
  arith, Bool-cases, length, filter_by, All, All-elem, elem, IsDistinct, Dict, lookup, get_or, ok,
  or_raise, >>=-eq-ok, or_raise-eq-ok, length-append, append_empty, map_empty, filter_by_nil,
  All-snoc, count_absent, count_distinct, key_error,
}
use codex_autopilot.Plan.{Task, Plan, find_task}
use codex_autopilot.Plan.Ids.{find_task-id, All-find_task}
use codex_autopilot.Scheduler.Priority.{PriorityScore}
use codex_autopilot.Scheduler.Availability.{
  Availability, Deferral, availability_reasons, task_capabilities, is_full, count_all, usage_from,
  resource_conflict,
}
use codex_autopilot.Scheduler.Availability.Reasons.{
  lookup-count_all, task_capabilities-IsDistinct, no_availability_reasons, HasNoReasons,
}
use codex_autopilot.Scheduler.Decision.{
  Deferred, Pass, reasons_against, place_task, consider, pass_over, score_ids,
}

abbrev pub conflicts_of : Availability → String → List String
conflicts_of a k = get_or [] (lookup k a.resource_conflicts)

-- No task conflicts with one selected before it.
abbrev pub IsCompatible : Availability → List String → Type 0
IsCompatible a [] = Unit
IsCompatible a (x ∷ xs) = All (λ y. elem x (conflicts_of a y) ≡ false) xs × IsCompatible a xs

IsCompatible-snoc :
    (a : Availability) (xs : List String) (k : String)
    → IsCompatible a xs
    → All (λ x. elem x (conflicts_of a k) ≡ false) xs
    → IsCompatible a (xs ++ k ∷ [])
IsCompatible-snoc a [] k h clear = (tt, tt)
IsCompatible-snoc a (x ∷ xs) k h clear = (
  All-snoc (λ y. elem x (conflicts_of a y) ≡ false) xs k h.0 clear.0,
  IsCompatible-snoc a xs k h.1 clear.1,
)

-- With no reason against it, the task meets the snapshot, conflicts with none of those selected,
-- and finds an open slot.
record IsFree (plan : Plan) (a : Availability) (limits : Dict ℕ) (open_slots : ℕ) (p : Pass)
    (task : Task) (resource_ok : Bool) : Type 0 where
  met : HasNoReasons plan a limits p.usage task resource_ok
  clear : All (λ s. elem s (conflicts_of a task.id) ≡ false) p.selected
  slot : length p.selected < open_slots

no_reasons :
    (plan : Plan) (a : Availability) (limits : Dict ℕ) (open_slots : ℕ) (p : Pass) (task : Task)
    (resource_ok : Bool)
    → reasons_against plan a limits open_slots p task resource_ok ≡ []
    → IsFree plan a limits open_slots p task resource_ok
unfolding reasons_against
no_reasons plan a limits open_slots p task resource_ok h =
    let (none_available, h₁) =
      append_empty (availability_reasons plan a limits p.usage task resource_ok) _ h in
    let clashes = filter_by (λ s. elem s (conflicts_of a task.id)) p.selected in
    let (no_clash, no_capacity) = append_empty (map resource_conflict clashes) _ h₁ in
    record {
      met = no_availability_reasons plan a limits p.usage task resource_ok none_available;
      clear =
          filter_by_nil (λ s. elem s (conflicts_of a task.id)) p.selected
            (map_empty resource_conflict clashes no_clash);
      slot = ground arith;
    }

abbrev deferred_ids : List Deferred → List String
deferred_ids [] = []
deferred_ids (d ∷ ds) = d.task_id ∷ deferred_ids ds

-- What holds of the pass at every moment, from the usage that it started with.
pub record IsFair (plan : Plan) (a : Availability) (limits initial : Dict ℕ) (open_slots : ℕ)
    (p : Pass) : Type 0 where
  pub bounded : length p.selected ≤ open_slots
  pub compatible : IsCompatible a p.selected
  pub unblocked : All (λ k. get_or [] (lookup k a.blocked_reasons) ≡ []) p.selected
  pub within :
      (c : String) (limit : ℕ)
      → lookup c limits ≡ some limit
      → get_or 0 (lookup c initial) ≤ limit
      → get_or 0 (lookup c p.usage) ≤ limit
  pub accounted : usage_from plan p.selected initial ≡ ok p.usage

usage_from-snoc :
    (plan : Plan) (xs : List String) (k : String) (task : Task) (initial : Dict ℕ) {usage : Dict ℕ}
    → usage_from plan xs initial ≡ ok usage
    → find_task k plan.tasks ≡ some task
    → usage_from plan (xs ++ k ∷ []) initial ≡ ok (count_all (task_capabilities plan task) usage)
unfolding usage_from
usage_from-snoc plan [] k task initial h found = rw found (ground arith)
usage_from-snoc plan (x ∷ xs) k task initial h found =
    let (t, e, h') = >>=-eq-ok (or_raise (find_task x plan.tasks) (key_error x)) _ h in
    rw e (usage_from-snoc plan xs k task (count_all (task_capabilities plan t) initial) h' found)

usage_within :
    (plan : Plan) (limits usage : Dict ℕ) (task : Task)
    → IsDistinct (task_capabilities plan task)
    → All (λ c. is_full limits usage c ≡ false) (task_capabilities plan task)
    → (c : String) (limit : ℕ) → lookup c limits ≡ some limit
    → get_or 0 (lookup c usage) ≤ limit
    → get_or 0 (lookup c (count_all (task_capabilities plan task) usage)) ≤ limit
unfolding is_full
usage_within plan limits usage task distinct roomy c limit limited le =
    let caps = task_capabilities plan task in
    let counted = lookup-count_all caps usage c in
    elim (Bool-cases (elem c caps)) [
      | inl used ↦
          let room = All-elem (λ x. is_full limits usage x ≡ false) caps c roomy used in
          ground (arith, counted, count_distinct c caps distinct, room)
      | inr unused ↦ ground (arith, counted, count_absent c caps unused)
    ]

place_task-IsFair :
    (plan : Plan) (a : Availability) (limits initial : Dict ℕ) (open_slots : ℕ) (p : Pass)
    (task : Task) (resource_ok : Bool) (reasons : List Deferral)
    → IsDistinct (task_capabilities plan task)
    → find_task task.id plan.tasks ≡ some task
    → IsFair plan a limits initial open_slots p
    → (reasons ≡ [] → IsFree plan a limits open_slots p task resource_ok)
    → IsFair plan a limits initial open_slots (place_task plan p task reasons)
unfolding place_task
place_task-IsFair plan a limits initial open_slots p task resource_ok [] distinct found fair free =
    let f = free refl in
    record {
      bounded = omega (arith, length-append p.selected (task.id ∷ []), f.slot);
      compatible = IsCompatible-snoc a p.selected task.id fair.compatible f.clear;
      unblocked =
          All-snoc (λ k. get_or [] (lookup k a.blocked_reasons) ≡ []) p.selected task.id
            fair.unblocked f.met.unblocked;
      within = λ c limit limited le.
          usage_within plan limits p.usage task distinct f.met.roomy c limit limited
            (fair.within c limit limited le);
      accounted = usage_from-snoc plan p.selected task.id task initial fair.accounted found;
    }
place_task-IsFair plan a limits initial open_slots p task resource_ok (r ∷ rs) distinct found fair
      free =
    record {
      bounded = fair.bounded;
      compatible = fair.compatible;
      unblocked = fair.unblocked;
      within = fair.within;
      accounted = fair.accounted;
    }

-- No task of the plan requires one capability twice.
abbrev pub HasDistinctCapabilities : Plan → Type 0
HasDistinctCapabilities plan = All (λ t. IsDistinct t.required_capabilities) plan.tasks

module _ (plan : Plan) (a : Availability) (limits initial : Dict ℕ) (open_slots : ℕ)
    (distinct : HasDistinctCapabilities plan) where
  consider-IsFair :
      (p : Pass) (score : PriorityScore) {after : Pass}
      → IsFair plan a limits initial open_slots p
      → consider plan a limits open_slots p score ≡ ok after
      → IsFair plan a limits initial open_slots after
  unfolding consider
  consider-IsFair p score {after} fair h =
      let (task, found, h') = >>=-eq-ok (or_raise (find_task score.task_id plan.tasks) _) _ h in
      let held = or_raise-eq-ok (find_task score.task_id plan.tasks) _ found in
      let caps = task_capabilities-IsDistinct plan task (
        All-find_task (λ t. IsDistinct t.required_capabilities) plan.tasks score.task_id distinct
          held) in
      let reasons = reasons_against plan a limits open_slots p task score.resource_available in
      let placed : place_task plan p task reasons ≡ after = cc in
      subst (IsFair plan a limits initial open_slots) placed (
        place_task-IsFair plan a limits initial open_slots p task score.resource_available reasons
          caps (cc (find_task-id score.task_id plan.tasks held)) fair
          (no_reasons plan a limits open_slots p task score.resource_available))

  place_task-All :
      (P : String → Type 0) (p : Pass) (task : Task) (reasons : List Deferral)
      → P task.id
      → All P p.selected
      → All P (place_task plan p task reasons).selected
  unfolding place_task
  place_task-All P p task [] hk h = All-snoc P p.selected task.id h hk
  place_task-All P p task (r ∷ rs) hk h = h

  consider-All :
      (P : String → Type 0) (p : Pass) (score : PriorityScore) {after : Pass}
      → P score.task_id
      → All P p.selected
      → consider plan a limits open_slots p score ≡ ok after
      → All P after.selected
  unfolding consider
  consider-All P p score {after} hk h e =
      let (task, found, e') = >>=-eq-ok (or_raise (find_task score.task_id plan.tasks) _) _ e in
      let held = or_raise-eq-ok (find_task score.task_id plan.tasks) _ found in
      let reasons = reasons_against plan a limits open_slots p task score.resource_available in
      let placed : place_task plan p task reasons ≡ after = cc in
      subst (λ q. All P q.selected) placed
        (place_task-All P p task reasons
          (subst P (sym (find_task-id score.task_id plan.tasks held)) hk) h)

  -- The pass keeps its promises to the end, whatever the scores.
  pub pass_over-IsFair :
      (p : Pass) (scores : List PriorityScore) {after : Pass}
      → IsFair plan a limits initial open_slots p
      → pass_over plan a limits open_slots p scores ≡ ok after
      → IsFair plan a limits initial open_slots after
  unfolding pass_over
  pass_over-IsFair p [] {after} fair h =
      let same : p ≡ after = cc in subst (IsFair plan a limits initial open_slots) same fair
  pass_over-IsFair p (score ∷ scores) fair h =
      let (p', step, h') = >>=-eq-ok (consider plan a limits open_slots p score) _ h in
      pass_over-IsFair p' scores (consider-IsFair p score fair step) h'

  -- What holds of every score's task holds of every task selected.
  pub pass_over-All :
      (P : String → Type 0) (p : Pass) (scores : List PriorityScore) {after : Pass}
      → All P (score_ids scores)
      → All P p.selected
      → pass_over plan a limits open_slots p scores ≡ ok after
      → All P after.selected
  unfolding pass_over
  pass_over-All P p [] {after} hs h e =
      let same : p ≡ after = cc in subst (λ q. All P q.selected) same h
  pass_over-All P p (score ∷ scores) hs h e =
      let (p', step, e') = >>=-eq-ok (consider plan a limits open_slots p score) _ e in
      pass_over-All P p' scores hs.1 (consider-All P p score hs.0 h step) e'
