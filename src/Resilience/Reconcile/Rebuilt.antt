-- ===== src/Resilience/Reconcile/Rebuilt.antt =====
-- The states that a changed plan starts from (reconcile_plan_change_state of
-- src/codex_autopilot/resilience.py).
use codex_autopilot.Prelude.{
  ℕ, String, ◌≡◌, refl, sym, ap, ◌∙◌, subst, ◌⊎◌, inl, inr, Bool, true, false, not, ◌||◌, Option,
  none, some, List, [], ◌∷◌, eq_iff, ◌==◌, if◌then◌else◌, Bool-cases, elem, Dict, lookup, insert,
  keys, lookup-insert, lookup-insert_ne, ok, or_raise, >>=-eq-ok, or_raise-eq-ok, ok-injective,
  key_error,
}
use codex_autopilot.Plan.{Task, Plan, ids}
use codex_autopilot.TaskState.{waiting, ready, value, dependencies_eligible}
use codex_autopilot.TaskState.Validity.{IsValid, validate_task_states_sound}
use codex_autopilot.PlanGraph.{topological_order}
use codex_autopilot.RunState.{RunState}
use codex_autopilot.Resilience.{active_plan_change, append_resilience_event}
use codex_autopilot.Resilience.Reconcile.{
  task_map, changed_tasks, affected_tasks, carried_states, open_task, open_tasks, rebuilt_states,
  check_versions, apply_states, apply_record, reconcile_plan_change_state,
}
use codex_autopilot.Resilience.Reconcile.Affected.{IsDownward, affected_tasks-IsDownward}

-- The state a task is given first: WAITING where it is new or affected, and what it was elsewhere.
abbrev pub start_of : Dict Task → RunState → List String → String → Option String
start_of before_map s affected k =
    if not (elem k (keys before_map)) || elem k affected
    then some (value waiting)
    else lookup k s.task_states

carried-step :
    (before_map : Dict Task) (s : RunState) (affected : List String) (t : Task) (raw : String)
    (states : Dict String) (k : String) (rest : Bool)
    → some raw ≡ start_of before_map s affected t.id
    → (if rest then start_of before_map s affected k else lookup k (insert t.id raw states))
      ≡ (if t.id == k || rest then start_of before_map s affected k else lookup k states)
carried-step before_map s affected t raw states k rest h = elim (Bool-cases (t.id == k)) [
  | inl same ↦
      let is_k = (eq_iff t.id k).0 same in
      let at_k : some raw ≡ start_of before_map s affected k =
        subst (λ j. some raw ≡ start_of before_map s affected j) is_k h in
      elim (Bool-cases rest) [
        | inl more ↦ rw (same, more) refl
        | inr last ↦ rw (lookup-insert, same, last) at_k
      ]
  | inr other ↦ rw (lookup-insert, other) refl
]

carried_states_lem :
    (before_map : Dict Task) (s : RunState) (affected : List String) (ts : List Task)
    (states : Dict String) {out : Dict String} (k : String)
    → carried_states before_map s affected ts states ≡ ok out
    → lookup k out ≡ (if elem k (ids ts) then start_of before_map s affected k else lookup k states)
unfolding carried_states
carried_states_lem before_map s affected [] states k h = ap (λ (m : Dict String). lookup k m) (cc h)
carried_states_lem before_map s affected (t ∷ ts) states {out} k h =
    elim (Bool-cases (not (elem t.id (keys before_map)) || elem t.id affected)) [
      | inl reset ↦
          carried_states_lem before_map s affected ts (insert t.id (value waiting) states) k
            (rw reset at h)
          ∙ carried-step before_map s affected t (value waiting) states k (elem k (ids ts))
              (rw reset refl)
      | inr kept ↦
          let (raw, found, h₁) =
            >>=-eq-ok (or_raise (lookup t.id s.task_states) (key_error t.id)) _ (rw kept at h) in
          let held = or_raise-eq-ok (lookup t.id s.task_states) (key_error t.id) found in
          carried_states_lem before_map s affected ts (insert t.id raw states) k h₁
          ∙ carried-step before_map s affected t raw states k (elem k (ids ts)) (rw kept (sym held))
    ]

-- A state that stays, or a waiting task that was made ready.
abbrev pub IsOpened : Option String → Option String → Type 0
IsOpened old new = (new ≡ old) ⊎ ((old ≡ some (value waiting)) × (new ≡ some (value ready)))

waiting-ne-ready : (value waiting == value ready) ≡ false
unfolding value
waiting-ne-ready = refl

opened_trans : (a b c : Option String) → IsOpened a b → IsOpened b c → IsOpened a c
opened_trans a b c (inl p) (inl q) = inl (q ∙ p)
opened_trans a b c (inl p) (inr q) = inr (sym p ∙ q.0, q.1)
opened_trans a b c (inr p) (inl q) = inr (p.0, q ∙ p.1)
opened_trans a b c (inr p) (inr q) = inr (p.0, q.1)

open_task-IsOpened :
    (candidate : Plan) (states : Dict String) (task_id k : String) {out : Dict String}
    → open_task candidate states task_id ≡ ok out
    → IsOpened (lookup k states) (lookup k out)
unfolding open_task
open_task-IsOpened candidate states task_id k {out} h =
    let (raw, found, h₁) = >>=-eq-ok (or_raise (lookup task_id states) (key_error task_id)) _ h in
    let held = or_raise-eq-ok (lookup task_id states) (key_error task_id) found in
    elim (Bool-cases (raw == value waiting)) [
      | inr other ↦
          let same : states ≡ out = cc (rw other at h₁) in
          inl (ap (λ (m : Dict String). lookup k m) (sym same))
      | inl waits ↦
          let (eligible, _, h₂) =
            >>=-eq-ok (dependencies_eligible candidate task_id states) _ (rw waits at h₁) in
          elim (Bool-cases eligible) [
            | inr not_yet ↦
                let same : states ≡ out = cc (rw not_yet at h₂) in
                inl (ap (λ (m : Dict String). lookup k m) (sym same))
            | inl now ↦
                let same : insert task_id (value ready) states ≡ out = cc (rw now at h₂) in
                subst (λ (m : Dict String). IsOpened (lookup k states) (lookup k m)) same
                  (elim (Bool-cases (task_id == k)) [
                    | inl here ↦
                        let is_k = (eq_iff task_id k).0 here in
                        let waits_k : lookup k states ≡ some (value waiting) =
                          subst (λ j. lookup j states ≡ some (value waiting)) is_k
                            (held ∙ ap (λ r. some r) ((eq_iff raw (value waiting)).0 waits)) in
                        inr (waits_k, rw (lookup-insert, here) refl)
                    | inr there ↦ inl (lookup-insert_ne task_id k (value ready) states there)
                  ])
          ]
    ]

open_tasks-IsOpened :
    (candidate : Plan) (states : Dict String) (order : List String) (k : String) {out : Dict String}
    → open_tasks candidate states order ≡ ok out
    → IsOpened (lookup k states) (lookup k out)
unfolding open_tasks
open_tasks-IsOpened candidate states [] k h =
    inl (ap (λ (m : Dict String). lookup k m) (sym (cc h)))
open_tasks-IsOpened candidate states (j ∷ order) k {out} h =
    let (next, first, rest) = >>=-eq-ok (open_task candidate states j) _ h in
    opened_trans (lookup k states) (lookup k next) (lookup k out)
      (open_task-IsOpened candidate states j k first)
      (open_tasks-IsOpened candidate next order k rest)

rebuilt_states-IsValid :
    (candidate : Plan) (before_map : Dict Task) (s : RunState) (affected : List String)
    {states : Dict String}
    → rebuilt_states candidate before_map s affected ≡ ok states
    → IsValid candidate states
      × ((k : String)
          → elem k (ids candidate.tasks) ≡ true
          → IsOpened (start_of before_map s affected k) (lookup k states))
unfolding rebuilt_states
rebuilt_states-IsValid candidate before_map s affected {states} h =
    let (carried, c, h₁) =
      >>=-eq-ok (carried_states before_map s affected candidate.tasks []) _ h in
    let (order, _, h₂) = >>=-eq-ok (topological_order candidate.tasks) _ h₁ in
    let (opened, o, h₃) = >>=-eq-ok (open_tasks candidate carried order) _ h₂ in
    let (valid, same) = validate_task_states_sound candidate opened h₃ in
    (
      subst (IsValid candidate) (sym same) valid,
      λ k known.
          let at_k : lookup k carried ≡ start_of before_map s affected k =
            rw known at (carried_states_lem before_map s affected candidate.tasks [] k c) in
          subst (λ (m : Dict String). IsOpened (start_of before_map s affected k) (lookup k m))
            (sym same)
            (subst (λ o. IsOpened o (lookup k opened)) at_k
              (open_tasks-IsOpened candidate carried order k o)),
    )

-- What the state is after a change has been applied; `affected` are the tasks that start anew.
pub record IsReconciled (current candidate : Plan) (s next : RunState) (requester : String)
    (affected : List String) : Type 0 where
  pub downward : IsDownward candidate.tasks affected
  pub requester_affected : elem requester affected ≡ true
  pub valid : IsValid candidate next.task_states
  pub states :
      (k : String)
      → elem k (ids candidate.tasks) ≡ true
      → IsOpened (start_of (task_map current) s affected k) (lookup k next.task_states)
  pub none_active : next.active_task_ids ≡ []
  pub version : next.graph_version ≡ candidate.graph_version
  pub settled : next.active_plan_change_id ≡ none

applied-IsReconciled :
    (current candidate : Plan) (s : RunState) (request_id : ℕ) (requester at : String)
    (affected : List String) (states : Dict String)
    → IsDownward candidate.tasks affected
    → elem requester affected ≡ true
    → IsValid candidate states
    → ((k : String)
        → elem k (ids candidate.tasks) ≡ true
        → IsOpened (start_of (task_map current) s affected k) (lookup k states))
    → IsReconciled current candidate s
        (append_resilience_event
          (record (apply_states candidate s affected states) {
            plan_changes =
                apply_record request_id candidate.graph_version at
                  (apply_states candidate s affected states).plan_changes;
          })
          "plan_change_applied"
          (some requester)
          (some request_id))
        requester
        affected
unfolding apply_states append_resilience_event
applied-IsReconciled current candidate s request_id requester at affected states downward mine valid
      opened =
    record {
      downward = downward;
      requester_affected = mine;
      valid = valid;
      states = opened;
      none_active = refl;
      version = refl;
      settled = refl;
    }

-- If a changed plan is reconciled, there is a set of affected tasks, with the requester in it and
-- with every task that depends on one of them; the new map of states is valid for the new plan; a
-- new or affected task starts from WAITING and any other from its old state, and each keeps that or
-- goes from WAITING to READY; no task is active, the graph version is the new plan's, and no change
-- is under way.
pub reconcile_plan_change_state-IsReconciled :
    (current candidate : Plan) (s : RunState) (request_id : ℕ) (requester at : String)
    {next : RunState}
    → reconcile_plan_change_state current candidate s request_id requester at ≡ ok next
    → (affected : List String) × IsReconciled current candidate s next requester affected
unfolding reconcile_plan_change_state
reconcile_plan_change_state-IsReconciled current candidate s request_id requester at {next} h =
    let before_map = task_map current in
    let (_, _, h₁) = >>=-eq-ok (check_versions current candidate s requester) _ h in
    let (changed, _, h₂) =
      >>=-eq-ok (changed_tasks current (task_map candidate) s requester before_map) _ h₁ in
    let (affected, closed, h₃) = >>=-eq-ok (affected_tasks candidate changed requester) _ h₂ in
    let (states, rebuilt, h₄) = >>=-eq-ok (rebuilt_states candidate before_map s affected) _ h₃ in
    let (_, _, h₅) =
      >>=-eq-ok (active_plan_change (apply_states candidate s affected states) (some request_id)) _
        h₄ in
    let (downward, mine, _) = affected_tasks-IsDownward candidate changed requester closed in
    let (valid, opened) = rebuilt_states-IsValid candidate before_map s affected rebuilt in
    (
      affected,
      subst (λ n. IsReconciled current candidate s n requester affected) (ok-injective h₅)
          (applied-IsReconciled current candidate s request_id requester at affected states downward
            mine valid opened),
    )
