-- ===== src/Scheduler/Ready/Marking.antt =====
-- Which tasks `compute_ready_task_ids` finds, and what marking them READY does to the map.
use codex_autopilot.Prelude.{
  String, ◌≡◌, refl, sym, ◌∙◌, subst, ◌≢◌, ◌⊎◌, inl, inr, true, false, ◌&&◌, some, List, [], ◌∷◌,
  arith, eq_iff, ◌==◌, if◌then◌else◌, ==_refl, Bool-cases, filter_by, All, All-map, elem, Dict,
  lookup, insert, get_or, lookup-insert, All-lookup, ok, or_raise, >>=-eq-ok, or_raise-eq-ok,
  filter_by_passes, elem-filter_by, key_error,
}
use codex_autopilot.Plan.{Task, Plan, ids}
use codex_autopilot.PlanGate.{require_plan_verified}
use codex_autopilot.RunState.{RunState}
use codex_autopilot.TaskState.Texts.{held_of_get, coerce-value, value-coerce, value_injective}
use codex_autopilot.TaskState.Gate.{
  IsKnown, IsEligible, IsMet, dependencies_eligible_sound, dependencies_eligible_complete,
}
use codex_autopilot.TaskState.Validity.{IsValid, IsGated, validate_task_states_sound}
use codex_autopilot.TaskState.Transitions
use codex_autopilot.TaskState.Transitions.{IsEdge}
use codex_autopilot.TaskState.{
  TaskState, waiting, ready, verified, value, coerce_task_state, among, validate_task_states,
  task_transitions,
}
use codex_autopilot.Scheduler.Ready.{
  is_candidate, ready_from, compute_ready_task_ids, mark_ready, is_ready, reconciled,
  reconcile_ready_tasks, validate_scheduler_state,
}

-- The task is WAITING or READY, and every dependency of it is VERIFIED.
pub record IsCandidate (plan : Plan) (states : Dict String) (k : String) : Type 0 where
  pub state : TaskState
  pub held : lookup k states ≡ some (value state)
  pub idle : among state (waiting ∷ ready ∷ []) ≡ true
  pub eligible : IsEligible plan states k

is_candidate_sound :
    (plan : Plan) (states : Dict String) (t : Task)
    → is_candidate plan states t ≡ ok true
    → IsCandidate plan states t.id
unfolding is_candidate
is_candidate_sound plan states t h =
    let (raw, found, h₁) = >>=-eq-ok (or_raise (lookup t.id states) (key_error t.id)) _ h in
    let (s, read, h₂) = >>=-eq-ok (coerce_task_state raw) _ h₁ in
    let held = or_raise-eq-ok (lookup t.id states) (key_error t.id) found in
    elim (Bool-cases (among s (waiting ∷ ready ∷ []))) [
      | inl idle ↦ record {
        state = s;
        held = cc (held, value-coerce raw read);
        idle = idle;
        eligible = dependencies_eligible_sound plan t.id states (rw idle at h₂);
      }
      | inr busy ↦ ground arith
    ]

is_candidate_complete :
    (plan : Plan) (states : Dict String) (t : Task)
    → IsKnown plan states
    → IsCandidate plan states t.id
    → is_candidate plan states t ≡ ok true
unfolding is_candidate
is_candidate_complete plan states t known c = rw (
  c.held,
  coerce-value c.state,
  c.idle,
  dependencies_eligible_complete plan t.id states known c.eligible,
)

ready_from_sound :
    (plan : Plan) (states : Dict String) (ts : List Task) {found : List String}
    → ready_from plan states ts ≡ ok found
    → All (IsCandidate plan states) found
unfolding ready_from
ready_from_sound plan states [] {found} h =
    let none_found : found ≡ [] = ground arith in rw none_found tt
ready_from_sound plan states (t ∷ ts) {found} h =
    let (candidate, e, h₁) = >>=-eq-ok (is_candidate plan states t) _ h in
    let (rest, e', h₂) = >>=-eq-ok (ready_from plan states ts) _ h₁ in
    let tail = ready_from_sound plan states ts e' in
    elim (Bool-cases candidate) [
      | inl good ↦
          let grown : found ≡ t.id ∷ rest = ground arith in
          rw grown (is_candidate_sound plan states t (ground arith), tail)
      | inr bad ↦ let same : found ≡ rest = ground arith in rw same tail
    ]

ready_from_complete :
    (plan : Plan) (states : Dict String) (ts : List Task) {found : List String}
    → IsKnown plan states
    → ready_from plan states ts ≡ ok found
    → All (λ t. IsCandidate plan states t.id → elem t.id found ≡ true) ts
unfolding ready_from
ready_from_complete plan states [] known h = tt
ready_from_complete plan states (t ∷ ts) {found} known h =
    let (candidate, e, h₁) = >>=-eq-ok (is_candidate plan states t) _ h in
    let (rest, e', h₂) = >>=-eq-ok (ready_from plan states ts) _ h₁ in
    (
      λ c. ground (arith, is_candidate_complete plan states t known c, ==_refl t.id),
      All-map ts (λ u later c. ground (arith, later c))
          (ready_from_complete plan states ts known e'),
    )

waiting-IsEdge :
    (plan : Plan) (m : Dict String) (k : String)
    → IsEligible plan m k
    → lookup k m ≡ some (value waiting)
    → IsEdge plan m k waiting ready
unfolding task_transitions
waiting-IsEdge plan m k el held = record { held = held; listed = refl; eligible = λ _. el }

module _ (plan : Plan) where
  mark_one : String → Dict String → Dict String
  mark_one k m = if get_or "" (lookup k m) == value waiting then insert k (value ready) m else m

  mark_one_keeps :
      (k : String) (m : Dict String)
      → IsValid plan m
      → IsEligible plan m k
      → IsValid plan (mark_one k m)
        × ((j : String) → IsEligible plan m j → IsEligible plan (mark_one k m) j)
  unfolding mark_one
  mark_one_keeps k m v el = elim (Bool-cases (get_or "" (lookup k m) == value waiting)) [
    | inl waits ↦
        let edge = waiting-IsEdge plan m k el (held_of_get waiting m k waits) in
        rw waits (
          Transitions.after-IsValid plan m k waiting ready v edge (λ h. cc),
          Transitions.IsEligible-after plan m k waiting ready v edge,
        )
    | inr other ↦ rw other (v, λ j e. e)
  ]

  -- Marking eligible tasks keeps the map valid.
  pub mark_ready-IsValid :
      (ks : List String) (m : Dict String)
      → IsValid plan m
      → All (IsEligible plan m) ks
      → IsValid plan (mark_ready ks m)
  unfolding mark_ready mark_one
  mark_ready-IsValid [] m v el = v
  mark_ready-IsValid (k ∷ ks) m v el =
      let (v', keep) = mark_one_keeps k m v el.0 in
      mark_ready-IsValid ks (mark_one k m) v' (All-map ks (λ j e. keep j e) el.1)

ready-ne-waiting : (value ready == value waiting) ≡ false
unfolding value
ready-ne-waiting = refl

-- Marking turns the listed WAITING tasks READY and leaves every other entry as it was.
pub lookup-mark_ready :
    (ks : List String) (m : Dict String) (j : String)
    → lookup j (mark_ready ks m) ≡ (
        if elem j ks && (get_or "" (lookup j m) == value waiting)
        then some (value ready)
        else lookup j m)
unfolding mark_ready
lookup-mark_ready [] m j = refl
lookup-mark_ready (k ∷ ks) m j = elim (Bool-cases (get_or "" (lookup k m) == value waiting)) [
  | inl waits ↦ rw waits (
      ground (
        arith,
        lookup-mark_ready ks (insert k (value ready) m) j,
        lookup-insert k j (value ready) m,
        eq_iff k j,
        ready-ne-waiting,
        waits,
      ))
  | inr other ↦ rw other (ground (arith, lookup-mark_ready ks m j, eq_iff k j, other))
]

-- An entry of the marked map is READY, or it is as it was.
mark_cases :
    (ks : List String) (m : Dict String) (j : String)
    → (lookup j (mark_ready ks m) ≡ some (value ready)) ⊎ (lookup j (mark_ready ks m) ≡ lookup j m)
mark_cases ks m j = elim (Bool-cases (elem j ks && (get_or "" (lookup j m) == value waiting))) [
  | inl marks ↦ inl (rw (lookup-mark_ready ks m j, marks) refl)
  | inr keeps ↦ inr (rw (lookup-mark_ready ks m j, keeps) refl)
]

-- So an entry that is not READY afterwards stood there before.
mark_back :
    (s : TaskState) (ks : List String) (m : Dict String) (j : String)
    → s ≢ ready
    → lookup j (mark_ready ks m) ≡ some (value s)
    → lookup j m ≡ some (value s)
mark_back s ks m j other held = elim (mark_cases ks m j) [
  | inl marked ↦ absurd (other (value_injective s ready (cc)))
  | inr same ↦ sym same ∙ held
]

-- What reconciliation leaves: a valid map, the READY tasks, each with its dependencies VERIFIED,
-- and no WAITING task whose dependencies are all VERIFIED.
pub record IsReconciled (plan : Plan) (after : Dict String) (ready_ids : List String) : Type 0 where
  pub valid : IsValid plan after
  pub listed :
      (k : String)
      → elem k (ids plan.tasks) ≡ true
      → lookup k after ≡ some (value ready)
      → elem k ready_ids ≡ true
  pub launchable :
      All (λ k. (lookup k after ≡ some (value ready)) × IsEligible plan after k) ready_ids
  pub none_left :
      All (λ t. IsEligible plan after t.id → lookup t.id after ≢ some (value waiting)) plan.tasks

pub ready_gate :
    (plan : Plan) (m : Dict String) (k : String)
    → IsValid plan m
    → lookup k m ≡ some (value ready)
    → IsEligible plan m k
ready_gate plan m k v held =
    let g = All-lookup (λ entry. IsGated plan m entry.0 entry.1) m k (value ready) v.gated held in
    let same : g.state ≡ ready = sym (value_injective ready g.state g.read) in
    g.eligible (rw same refl)

module _ (plan : Plan) (m : Dict String) (v : IsValid plan m) (eligible : List String)
    (found : ready_from plan m plan.tasks ≡ ok eligible) where
  IsMet-before : (j : String) → IsMet (mark_ready eligible m) j → IsMet m j
  IsMet-before j met = mark_back verified eligible m j (λ e. cc) met

  none_left_at :
      (t : Task)
      → (IsCandidate plan m t.id → elem t.id eligible ≡ true)
      → IsEligible plan (mark_ready eligible m) t.id
      → lookup t.id (mark_ready eligible m) ≢ some (value waiting)
  none_left_at t listed el held =
      let held_before = mark_back waiting eligible m t.id (λ e. cc) held in
      let was_listed = listed (record {
        state = waiting;
        held = held_before;
        idle = refl;
        eligible = record {
          task = el.task;
          found = el.found;
          met = All-map el.task.depends_on IsMet-before el.met;
        };
      }) in
      ground (
        arith,
        lookup-mark_ready eligible m t.id,
        ready-ne-waiting,
        ==_refl (value waiting),
        eq_iff (value ready) (value waiting),
      )

  abbrev marked : Dict String
  marked = mark_ready eligible m

  reconciled_lem : IsReconciled plan marked (filter_by (is_ready marked) (ids plan.tasks))
  reconciled_lem =
      let v' =
        mark_ready-IsValid plan eligible m v
          (All-map eligible (λ k c. c.eligible) (ready_from_sound plan m plan.tasks found)) in
      record {
        valid = v';
        listed = λ k known held.
            ground
              (arith, elem-filter_by (is_ready marked) (ids plan.tasks) k, ==_refl (value ready));
        launchable =
            All-map (filter_by (is_ready marked) (ids plan.tasks))
              (λ k is.
                let held = held_of_get ready marked k is in
                (held, ready_gate plan marked k v' held))
              (filter_by_passes (is_ready marked) (ids plan.tasks));
        none_left =
            All-map plan.tasks none_left_at (ready_from_complete plan m plan.tasks v.known found);
      }

-- A reconciliation that is accepted leaves a valid map, reports every READY task of the plan and
-- none but READY tasks whose dependencies are all VERIFIED, and leaves no task WAITING whose
-- dependencies are all VERIFIED.
pub reconcile_ready_tasks-IsReconciled :
    (digest : Plan → String) (plan : Plan) (state : RunState) {after : RunState}
    {ready_ids : List String}
    → reconcile_ready_tasks digest plan state ≡ ok (after, ready_ids)
    → IsReconciled plan after.task_states ready_ids
unfolding reconcile_ready_tasks compute_ready_task_ids reconciled
reconcile_ready_tasks-IsReconciled digest plan state {after} {ready_ids} h =
    let (_, _, h₁) = >>=-eq-ok (require_plan_verified digest plan state.plan_verification) _ h in
    let (_, _, h₂) = >>=-eq-ok (validate_scheduler_state plan state) _ h₁ in
    let (m, checked, h₃) = >>=-eq-ok (validate_task_states plan state.task_states true) _ h₂ in
    let (eligible, computed, h₄) = >>=-eq-ok (compute_ready_task_ids plan m) _ h₃ in
    let (n, again, found) = >>=-eq-ok (validate_task_states plan m true) _ computed in
    let (v, same) = validate_task_states_sound plan m again in
    let found' : ready_from plan m plan.tasks ≡ ok eligible =
      subst (λ x. ready_from plan x plan.tasks ≡ ok eligible) same found in
    let same_pair : reconciled plan state m eligible ≡ (after, ready_ids) = cc in
    subst (λ p. IsReconciled plan p.0.task_states p.1) same_pair
      (reconciled_lem plan m v eligible found')
