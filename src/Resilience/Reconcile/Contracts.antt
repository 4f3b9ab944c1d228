-- ===== src/Resilience/Reconcile/Contracts.antt =====
-- Which tasks a changed plan may rewrite (the first loop of reconcile_plan_change_state of
-- src/codex_autopilot/resilience.py).
use codex_autopilot.Prelude.{
  ℕ, String, ◌≡◌, subst, inl, inr, Bool, true, false, not, ◌&&◌, some, List, [], ◌∷◌, arith, eq_iff,
  ◌==◌, Bool-cases, Dict, lookup, ok, or_raise, >>=-eq-ok, or_raise-eq-ok, key_error,
}
use codex_autopilot.Plan.{Task, Plan}
use codex_autopilot.Plan.Equality.{same_task, same_task_sound}
use codex_autopilot.TaskState.{TaskState, verified, cancelled, coerce_task_state, is, among}
use codex_autopilot.RunState.{RunState}
use codex_autopilot.Resilience.Reconcile.{
  task_map, with_lead, names_only_its_lead, rewritable, judge_difference, judge_task, changed_tasks,
  check_versions, reconcile_plan_change_state,
}

-- How a task may stand in the next plan: as it was; rewritten, when it is the requester's or no work
-- was done on it; or with another lead and all else the same.
pub data IsAllowed (requester task_id : String) (state : TaskState) (before after : Task)
    : Type 0 where
  same : before ≡ after → IsAllowed requester task_id state before after
  of_requester :
      is state verified ≡ false
      → (task_id == requester) ≡ true
      → IsAllowed requester task_id state before after
  not_begun : among state rewritable ≡ true → IsAllowed requester task_id state before after
  led :
      is state verified ≡ false
      → with_lead after.verification.verifier_role before ≡ after
      → IsAllowed requester task_id state before after

names_only_its_lead_sound :
    (before after : Task)
    → names_only_its_lead before after ≡ true
    → with_lead after.verification.verifier_role before ≡ after
unfolding names_only_its_lead
names_only_its_lead_sound before after h =
    same_task_sound (with_lead after.verification.verifier_role before) after (ground arith)

judge_difference-IsAllowed :
    (current : Plan) (requester task_id : String) (state : TaskState) (before after : Task)
    {b : Bool}
    → judge_difference current requester state before after task_id ≡ ok b
    → IsAllowed requester task_id state before after
unfolding judge_difference
judge_difference-IsAllowed current requester task_id state before after {b} h =
    elim (Bool-cases (is state verified)) [
      | inl done ↦ absurd (cc (rw done at h))
      | inr undone ↦
          let h₁ = rw undone at h in
          elim (Bool-cases (task_id == requester)) [
            | inl mine ↦ of_requester undone mine
            | inr others ↦
                elim (Bool-cases (not (is state cancelled) && names_only_its_lead before after)) [
                  | inl lead ↦ led undone (names_only_its_lead_sound before after (ground arith))
                  | inr other ↦ elim (Bool-cases (among state rewritable)) [
                    | inl free ↦ not_begun free
                    | inr advanced ↦ absurd (cc (rw (others, other, advanced) at h₁))
                  ]
                ]
          ]
    ]

judge_task-IsAllowed :
    (current : Plan) (after_map : Dict Task) (s : RunState) (requester task_id : String)
    (before : Task) {b : Bool}
    → judge_task current after_map s requester task_id before ≡ ok b
    → (after : Task) × (raw : String) × (state : TaskState) × (lookup task_id after_map
        ≡ some after)
      × (lookup task_id s.task_states ≡ some raw)
      × (coerce_task_state raw ≡ ok state)
      × IsAllowed requester task_id state before after
unfolding judge_task
judge_task-IsAllowed current after_map s requester task_id before {b} h =
    let (after, found, h₁) =
      >>=-eq-ok (or_raise (lookup task_id after_map) (key_error task_id)) _ h in
    let (raw, held, h₂) =
      >>=-eq-ok (or_raise (lookup task_id s.task_states) (key_error task_id)) _ h₁ in
    let (state, read, h₃) = >>=-eq-ok (coerce_task_state raw) _ h₂ in
    (
      after,
      raw,
      state,
      or_raise-eq-ok (lookup task_id after_map) (key_error task_id) found,
      or_raise-eq-ok (lookup task_id s.task_states) (key_error task_id) held,
      read,
      elim (Bool-cases (same_task before after)) [
        | inl equal ↦ same (same_task_sound before after equal)
        | inr differs ↦
            judge_difference-IsAllowed current requester task_id state before after
              (rw differs at h₃)
      ],
    )

changed_tasks-judged :
    (current : Plan) (after_map : Dict Task) (s : RunState) (requester : String) (m : Dict Task)
    (k : String) (before : Task) {changed : List String}
    → changed_tasks current after_map s requester m ≡ ok changed
    → lookup k m ≡ some before
    → (b : Bool) × (judge_task current after_map s requester k before ≡ ok b)
unfolding changed_tasks lookup
changed_tasks-judged current after_map s requester [] k before h found = absurd (cc found)
changed_tasks-judged current after_map s requester ((key, task) ∷ m) k before h found =
    let (b, judged, h₁) = >>=-eq-ok (judge_task current after_map s requester key task) _ h in
    let (rest, others, _) = >>=-eq-ok (changed_tasks current after_map s requester m) _ h₁ in
    elim (Bool-cases (key == k)) [
      | inl here ↦
          let is_k = (eq_iff key k).0 here in
          let is_before : task ≡ before = cc (rw here at found) in
          (
            b,
            subst (λ t. judge_task current after_map s requester k t ≡ ok b) is_before
                (subst (λ j. judge_task current after_map s requester j task ≡ ok b) is_k judged),
          )
      | inr later ↦
          changed_tasks-judged current after_map s requester m k before others (rw later at found)
    ]

-- If a changed plan is reconciled, every task of the old plan is in the new one and has a known
-- state; and it is as it was, or it is not VERIFIED and belongs to the requester, or it is WAITING,
-- READY or BLOCKED, or it is not VERIFIED and nothing but its verifier's role is new.
pub reconcile_plan_change_state-contracts :
    (current candidate : Plan) (s : RunState) (request_id : ℕ) (requester at : String) (k : String)
    (before : Task) {next : RunState}
    → reconcile_plan_change_state current candidate s request_id requester at ≡ ok next
    → lookup k (task_map current) ≡ some before
    → (after : Task) × (raw : String) × (state : TaskState) × (lookup k (task_map candidate)
        ≡ some after)
      × (lookup k s.task_states ≡ some raw)
      × (coerce_task_state raw ≡ ok state)
      × IsAllowed requester k state before after
unfolding reconcile_plan_change_state
reconcile_plan_change_state-contracts current candidate s request_id requester at k before h found =
    let (_, _, h₁) = >>=-eq-ok (check_versions current candidate s requester) _ h in
    let (changed, judged, _) =
      >>=-eq-ok (changed_tasks current (task_map candidate) s requester (task_map current)) _ h₁ in
    let (b, one) =
      changed_tasks-judged current (task_map candidate) s requester (task_map current) k before
        judged found in
    judge_task-IsAllowed current (task_map candidate) s requester k before one
