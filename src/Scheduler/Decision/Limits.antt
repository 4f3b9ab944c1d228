-- ===== src/Scheduler/Decision/Limits.antt =====
-- What a launch decision promises.
use codex_autopilot.Prelude.{
  ℕ, ◌+◌, ◌-◌, ◌≤◌, String, ◌≡◌, refl, sym, subst, inl, inr, true, ◌&&◌, some, List, [], ◌∷◌, arith,
  ltb, ◌==◌, Bool-cases, length, All, All-map, Dict, lookup, get_or, ok, >>=-eq-ok, Result-cases,
  IsSorted,
}
use codex_autopilot.Plan.{Task, Plan}
use codex_autopilot.PlanGate.{require_plan_verified}
use codex_autopilot.RunState.{RunState}
use codex_autopilot.TaskState.{ready, value}
use codex_autopilot.TaskState.Texts.{held_of_get}
use codex_autopilot.TaskState.Gate.{IsEligible}
use codex_autopilot.TaskState.Validity.{IsValid}
use codex_autopilot.Scheduler.Ready.{reconcile_ready_tasks, validate_scheduler_state, is_ready}
use codex_autopilot.Scheduler.Ready.Marking.{reconcile_ready_tasks-IsReconciled, ready_gate}
use codex_autopilot.Scheduler.Priority.{PriorityScore, comes_before, ordered, graph_relevance}
use codex_autopilot.Scheduler.Priority.Order.{ordered-IsSorted, All-ordered}
use codex_autopilot.Scheduler.Availability.{
  Availability, usage_from, validate_availability, active_capability_usage,
  effective_capability_limits,
}
use codex_autopilot.Scheduler.Decision.{
  Decision, Pass, effective_strategy, effective_worker_limit, follow_budget, scores_from, pass_over,
  score_ids, decide_on, launch, checks, schedule,
}
use codex_autopilot.Scheduler.Decision.Selection.{
  IsCompatible, HasDistinctCapabilities, pass_over-IsFair, pass_over-All,
}

scores_from-ready :
    (relevance : Dict (ℕ × ℕ)) (a : Availability) (state : RunState) (index : ℕ) (ts : List Task)
    → All
        (λ s. is_ready state.task_states s.task_id ≡ true)
        (scores_from relevance a state index ts)
unfolding scores_from
scores_from-ready relevance a state index [] = tt
scores_from-ready relevance a state index (t ∷ ts) =
    elim (Bool-cases (is_ready state.task_states t.id)) [
      | inl is ↦ rw is (is, scores_from-ready relevance a state (index + 1) ts)
      | inr other ↦ rw other (scores_from-ready relevance a state (index + 1) ts)
    ]

All-score_ids :
    (P : String → Type 0) (scores : List PriorityScore)
    → All (λ s. P s.task_id) scores
    → All P (score_ids scores)
All-score_ids P [] h = tt
All-score_ids P (s ∷ ss) h = (h.0, All-score_ids P ss h.1)

-- A decision that is safe to carry out on the state that it was made on: the slots are there, no
-- two launches conflict, each launched task is READY with its dependencies VERIFIED, and all active
-- and launched tasks together stay within each capability's limit, if the active ones did.
pub record IsSafe (plan : Plan) (a : Availability) (after : RunState) (d : Decision) : Type 0 where
  pub slots : length d.selected_task_ids ≤ d.worker_limit - length after.active_task_ids
  pub compatible : IsCompatible a d.selected_task_ids
  pub launchable :
      All
        (λ k.
          (lookup k after.task_states ≡ some (value ready)) × IsEligible plan after.task_states k)
        d.selected_task_ids
  pub unblocked : All (λ k. get_or [] (lookup k a.blocked_reasons) ≡ []) d.selected_task_ids
  pub by_priority : IsSorted comes_before d.priorities
  pub active_usage : Dict ℕ
  pub total_usage : Dict ℕ
  pub active_counted : usage_from plan after.active_task_ids [] ≡ ok active_usage
  pub total_counted : usage_from plan d.selected_task_ids active_usage ≡ ok total_usage
  pub within :
      (c : String) (limit : ℕ)
      → lookup c (effective_capability_limits plan after a) ≡ some limit
      → get_or 0 (lookup c active_usage) ≤ limit
      → get_or 0 (lookup c total_usage) ≤ limit

launchable_at :
    (plan : Plan) (m : Dict String) (k : String)
    → IsValid plan m
    → is_ready m k ≡ true
    → (lookup k m ≡ some (value ready)) × IsEligible plan m k
launchable_at plan m k v is =
    let held = held_of_get ready m k is in (held, ready_gate plan m k v held)

decide_on-IsSafe :
    (plan : Plan) (state : RunState) (a : Availability) (limit : ℕ) {d : Decision}
    → HasDistinctCapabilities plan
    → IsValid plan state.task_states
    → decide_on plan state a limit ≡ ok d
    → IsSafe plan a state d
unfolding decide_on active_capability_usage usage_from
decide_on-IsSafe plan state a limit {d} distinct v h =
    let (relevance, _, h₁) = >>=-eq-ok (graph_relevance plan.tasks) _ h in
    let (usage, counted, h₂) = >>=-eq-ok (active_capability_usage plan state) _ h₁ in
    let raw = scores_from relevance a state 0 plan.tasks in
    let scores = ordered raw in
    let limits = effective_capability_limits plan state a in
    let start : Pass = record { selected = []; usage = usage; deferred = [] } in
    let open_slots = limit - length state.active_task_ids in
    let (done, passed, h₃) = >>=-eq-ok (pass_over plan a limits open_slots start scores) _ h₂ in
    let fair =
      pass_over-IsFair plan a limits usage open_slots distinct start scores
        (record {
          bounded = omega arith;
          compatible = tt;
          unblocked = tt;
          within = λ c n limited le. le;
          accounted = refl;
        })
        passed in
    let all_ready : All (λ k. is_ready state.task_states k ≡ true) (score_ids scores) =
      All-score_ids (λ k. is_ready state.task_states k ≡ true) scores
        (All-ordered (λ s. is_ready state.task_states s.task_id ≡ true) raw
          (scores_from-ready relevance a state 0 plan.tasks)) in
    let picked =
      pass_over-All plan a limits usage open_slots distinct
        (λ k. is_ready state.task_states k ≡ true) start scores all_ready tt passed in
    let made : Decision = record {
      strategy = effective_strategy plan state;
      worker_limit = limit;
      open_worker_slots = open_slots;
      ready_task_ids = score_ids scores;
      selected_task_ids = done.selected;
      priorities = scores;
      deferred = done.deferred;
    } in
    let same : made ≡ d = cc in
    subst (IsSafe plan a state) same (record {
      slots = fair.bounded;
      compatible = fair.compatible;
      launchable =
          All-map done.selected (λ k is. launchable_at plan state.task_states k v is) picked;
      unblocked = fair.unblocked;
      by_priority = (ordered-IsSorted raw).0;
      active_usage = usage;
      total_usage = done.usage;
      active_counted = counted;
      total_counted = fair.accounted;
      within = fair.within;
    })

follow_budget_keeps :
    (plan : Plan) (state : RunState) → (follow_budget plan state).task_states ≡ state.task_states
unfolding follow_budget
follow_budget_keeps plan state = ground arith

launch-IsSafe :
    (plan : Plan) (state : RunState) (a : Availability) {after : RunState} {d : Decision}
    → HasDistinctCapabilities plan
    → IsValid plan state.task_states
    → launch plan state a ≡ (after, ok d)
    → IsSafe plan a after d
unfolding launch
launch-IsSafe plan state a {after} {d} distinct v h =
    elim (Bool-cases
      (effective_strategy plan state == "serial" && ltb 1 (length state.active_task_ids))) [
        | inl crowded ↦ ground arith
        | inr fits ↦
            let limit = effective_worker_limit plan state in
            let followed : follow_budget plan state ≡ after = ground arith in
            let decided : decide_on plan (follow_budget plan state) a limit ≡ ok d = ground arith in
            subst (λ s. IsSafe plan a s d) followed
              (decide_on-IsSafe plan (follow_budget plan state) a limit distinct
                (subst (IsValid plan) (sym (follow_budget_keeps plan state)) v) decided)
      ]

checks_reconciled :
    (digest : Plan → String) (plan : Plan) (state : RunState) (a : Availability)
    {r : RunState × List String}
    → checks digest plan state a ≡ ok r
    → reconcile_ready_tasks digest plan state ≡ ok r
unfolding checks
checks_reconciled digest plan state a h =
    let (_, _, h₁) = >>=-eq-ok (require_plan_verified digest plan state.plan_verification) _ h in
    let (_, _, h₂) = >>=-eq-ok (validate_availability plan a) _ h₁ in
    let (_, _, h₃) = >>=-eq-ok (validate_scheduler_state plan state) _ h₂ in h₃

-- If no task names a capability twice and `schedule` returns a decision, then on the state that it
-- leaves: no more tasks are selected than there are open worker slots; no two of them conflict in
-- the snapshot; each is READY, with every dependency VERIFIED, and has no blocking reason; the
-- priorities are sorted; and the active and the selected tasks together stay within each
-- capability's limit, if the active ones did.
pub schedule-IsSafe :
    (digest : Plan → String) (plan : Plan) (state : RunState) (a : Availability) {after : RunState}
    {d : Decision}
    → HasDistinctCapabilities plan
    → schedule digest plan state a ≡ (after, ok d)
    → IsSafe plan a after d
unfolding schedule
schedule-IsSafe digest plan state a {after} {d} distinct h =
    elim (Result-cases (checks digest plan state a)) [
      | inl passed ↦
          let (r, e) = passed in
          let reconciled = checks_reconciled digest plan state a e in
          let launched : launch plan r.0 a ≡ (after, ok d) = rw (e, schedule) at h in
          launch-IsSafe plan r.0 a distinct
            (reconcile_ready_tasks-IsReconciled digest plan state reconciled).valid launched
      | inr refused ↦ ground (arith, refused.1)
    ]
