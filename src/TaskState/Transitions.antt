-- ===== src/TaskState/Transitions.antt =====
-- What a transition that is accepted did, and which are accepted.
use codex_autopilot.Prelude.{
  String, ◌≡◌, refl, sym, ap, ◌∙◌, subst, ◌⊎◌, inl, inr, true, false, not, ◌&&◌, some, [], ◌∷◌,
  arith, eq_iff, ◌==◌, Bool-cases, All-map, All-elem, elem, Dict, lookup, insert, keys,
  lookup-insert_ne, elem-keys, All-lookup, All-insert, ok, or_raise, >>=-eq-ok, ensure-eq-ok,
  or_raise-eq-ok, ensure-bind-eq-ok, is_empty, empty_of_is_empty, keys-insert_old,
}
use codex_autopilot.Plan.{Plan, ids}
use codex_autopilot.Plan.Ids.{find_task_of_elem}
use codex_autopilot.TaskState.Texts.{coerce-value, value-coerce, value_injective, normalize_lem}
use codex_autopilot.TaskState.Gate.{
  IsKnown, IsEligible, IsMet, unmet_dependencies_sound, unmet_dependencies_complete,
}
use codex_autopilot.TaskState.Validity.{
  IsValid, IsGated, validate_task_states_sound, validate_task_states_complete, normalize_of_gated,
}
use codex_autopilot.TaskState.{
  TaskState, ready, running, implemented, verified, blocked, value, coerce_task_state, is, among,
  task_transitions, normalize, unmet_dependencies, get_task, matches_map, check_eligible,
  validate_transition, transition_task, validate_task_states, ungated,
}

-- The edge is in the table, and an edge into READY or RUNNING finds every dependency VERIFIED.
pub record IsEdge (plan : Plan) (states : Dict String) (task_id : String)
    (source destination : TaskState) : Type 0 where
  pub held : lookup task_id states ≡ some (value source)
  pub listed : among destination (task_transitions source) ≡ true
  pub eligible : among destination (ready ∷ running ∷ []) ≡ true → IsEligible plan states task_id

-- What an accepted transition is: an edge, and the map rewritten at the one task.
pub record IsTransition (plan : Plan) (states : Dict String) (task_id target : String)
    (after : Dict String) : Type 0 where
  pub source : TaskState
  pub destination : TaskState
  pub named : target ≡ value destination
  pub edge : IsEdge plan states task_id source destination
  pub written : after ≡ insert task_id (value destination) states
  pub valid : IsValid plan after

is_refl : (s : TaskState) → is s s ≡ true
is_refl s = ground arith

matches_map_held :
    (k : String) (s : TaskState) (states : Dict String)
    → lookup k states ≡ some (value s)
    → matches_map states k s ≡ ok true
unfolding matches_map
matches_map_held k s states held = rw (held, matches_map, coerce-value s, is_refl s)

not_direct :
    (s d : TaskState)
    → among d (task_transitions s) ≡ true
    → (is s implemented && is d verified) ≡ false
unfolding task_transitions
not_direct s d h = ground arith

check_eligible_sound :
    (plan : Plan) (k : String) (states : Dict String) (d : TaskState) {u : Unit {0}}
    → check_eligible plan k states d ≡ ok u
    → among d (ready ∷ running ∷ []) ≡ true
    → IsEligible plan states k
unfolding check_eligible
check_eligible_sound plan k states d h launches =
    let (unmet, e, h') = >>=-eq-ok (unmet_dependencies plan k states) _ (rw launches at h) in
    let none_unmet : unmet ≡ [] = empty_of_is_empty unmet (ensure-eq-ok (is_empty unmet) _ h') in
    unmet_dependencies_sound plan k states (cc)

check_eligible_complete :
    (plan : Plan) (k : String) (states : Dict String) (d : TaskState)
    → IsKnown plan states
    → (among d (ready ∷ running ∷ []) ≡ true → IsEligible plan states k)
    → check_eligible plan k states d ≡ ok tt
unfolding check_eligible
check_eligible_complete plan k states d known el =
    elim (Bool-cases (among d (ready ∷ running ∷ []))) [
      | inl launches ↦ rw (launches, unmet_dependencies_complete plan k states known (el launches))
      | inr stays ↦ rw stays
    ]

validate_transition_sound :
    (plan : Plan) (k current target : String) (states : Dict String) {d : TaskState}
    → lookup k states ≡ some current
    → validate_transition plan k current target states ≡ ok d
    → (s : TaskState) × (target ≡ value d) × IsEdge plan states k s d
unfolding validate_transition
validate_transition_sound plan k current target states {d} held h =
    let (t, _, h₁) = >>=-eq-ok (get_task plan k) _ h in
    let (s, read_s, h₂) = >>=-eq-ok (coerce_task_state current) _ h₁ in
    let (e, read_d, h₃) = >>=-eq-ok (coerce_task_state target) _ h₂ in
    let (same, _, h₄) = >>=-eq-ok (matches_map states k s) _ h₃ in
    let (_, h₅) = ensure-bind-eq-ok same _ _ h₄ in
    let (_, h₆) = ensure-bind-eq-ok (not (is s implemented && is e verified)) _ _ h₅ in
    let (listed, h₇) = ensure-bind-eq-ok (among e (task_transitions s)) _ _ h₆ in
    let (_, eligible, h₈) = >>=-eq-ok (check_eligible plan k states e) _ h₇ in
    let e_is_d : e ≡ d = cc in
    (
      s,
      cc (value-coerce target read_d),
      record {
        held = cc (value-coerce current read_s);
        listed = subst (λ x. among x (task_transitions s) ≡ true) e_is_d listed;
        eligible =
            subst (λ x. among x (ready ∷ running ∷ []) ≡ true → IsEligible plan states k) e_is_d
              (check_eligible_sound plan k states e eligible);
      },
    )

-- A transition that is accepted follows an edge of the table from the state that the map holds;
-- into READY or RUNNING it finds every dependency VERIFIED; it rewrites the map at the one task
-- only; and the new map is valid.
pub transition_task_sound :
    (plan : Plan) (states : Dict String) (k target : String) {after : Dict String}
    → transition_task plan states k target ≡ ok after
    → IsTransition plan states k target after
unfolding transition_task
transition_task_sound plan states k target {after} h =
    let (current, found, h₁) = >>=-eq-ok (or_raise (lookup k states) _) _ h in
    let held = or_raise-eq-ok (lookup k states) _ found in
    let (d, checked, h₂) = >>=-eq-ok (validate_transition plan k current target states) _ h₁ in
    let (n, read, h₃) = >>=-eq-ok (normalize states) _ h₂ in
    let (s, named, edge) = validate_transition_sound plan k current target states held checked in
    let (out, valid, h₄) = >>=-eq-ok (validate_task_states plan (insert k (value d) n) true) _ h₃ in
    let same : n ≡ states = normalize_lem states read in
    let written : after ≡ insert k (value d) states = cc in
    record {
      source = s;
      destination = d;
      named = named;
      edge = edge;
      written = written;
      valid =
          (validate_task_states_sound plan after (
            subst (λ m. validate_task_states plan m true ≡ ok out)
              (ap (insert k (value d)) same ∙ sym written) valid)).0;
    }

-- Past the gate, an edge is guarded itself, or starts past the gate, or lifts a stop to IMPLEMENTED.
edge_cases :
    (s d : TaskState)
    → among d (task_transitions s) ≡ true
    → among d ungated ≡ false
    → (among d (ready ∷ running ∷ []) ≡ true)
      ⊎ (among s ungated ≡ false)
      ⊎ ((is s blocked && is d implemented) ≡ true)
unfolding task_transitions
edge_cases s d h g = ground arith

not_from_verified : (d : TaskState) → among d (task_transitions verified) ≡ false
unfolding task_transitions
not_from_verified d = refl

module _ (plan : Plan) (states : Dict String) (k : String) (s d : TaskState)
    (v : IsValid plan states) (edge : IsEdge plan states k s d) where
  abbrev pub after : Dict String
  after = insert k (value d) states

  -- A dependency that is met is not the task that moves: VERIFIED has no edge out.
  pub IsMet-after : (j : String) → IsMet states j → IsMet after j
  IsMet-after j met = elim (Bool-cases (k == j)) [
    | inl same ↦
        let moved : s ≡ verified =
          value_injective s verified (ground (arith, eq_iff k j, edge.held)) in
        ground (arith, not_from_verified d, edge.listed)
    | inr other ↦ lookup-insert_ne k j (value d) states other ∙ met
  ]

  pub IsEligible-after : (j : String) → IsEligible plan states j → IsEligible plan after j
  IsEligible-after j el = record {
    task = el.task;
    found = el.found;
    met = All-map el.task.depends_on IsMet-after el.met;
  }

  held_gate : among s ungated ≡ false → IsEligible plan states k
  held_gate past =
      let g =
        All-lookup (λ entry. IsGated plan states entry.0 entry.1) states k (value s) v.gated
          edge.held in
      g.eligible (subst (λ x. among x ungated ≡ false) (value_injective s g.state g.read) past)

  module _ (lifted : (is s blocked && is d implemented) ≡ true → IsEligible plan states k) where
    moved_gate : among d ungated ≡ false → IsEligible plan states k
    moved_gate past = elim (edge_cases s d edge.listed past) [
      | inl launched ↦ edge.eligible launched
      | inr (inl held) ↦ held_gate held
      | inr (inr lifts) ↦ lifted lifts
    ]

    pub after-IsValid : IsValid plan after
    after-IsValid =
        let in_map : elem k (keys states) ≡ true = ground (arith, elem-keys k states, edge.held) in
        let same_keys = keys-insert_old k (value d) states in_map in
        record {
          known = rw same_keys v.known;
          complete = rw same_keys v.complete;
          gated =
              All-insert (λ entry. IsGated plan after entry.0 entry.1) states k (value d)
                (All-map states
                  (λ entry g. record {
                    state = g.state;
                    read = g.read;
                    eligible = λ past. IsEligible-after entry.0 (g.eligible past);
                  })
                  v.gated)
                (record {
                  state = d;
                  read = refl;
                  eligible = λ past. IsEligible-after k (moved_gate past);
                });
        }

    -- From a valid map, every edge of the table is accepted, if it finds the dependencies VERIFIED
    -- where it leads into READY or RUNNING, or from BLOCKED to IMPLEMENTED; the new map is the old
    -- one rewritten at the task.
    pub transition_task_complete : transition_task plan states k (value d) ≡ ok after
    unfolding transition_task validate_transition get_task
    transition_task_complete =
        let in_map : elem k (keys states) ≡ true = ground (arith, elem-keys k states, edge.held) in
        let in_plan =
          All-elem (λ j. elem j (ids plan.tasks) ≡ true) (keys states) k v.known in_map in
        let (t, found) = find_task_of_elem k plan.tasks in_plan in
        rw (
          edge.held,
          found,
          coerce-value s,
          coerce-value d,
          matches_map_held k s states edge.held,
          not_direct s d edge.listed,
          edge.listed,
          check_eligible_complete plan k states d v.known edge.eligible,
          normalize_of_gated plan states states v.gated,
          validate_task_states_complete plan after after-IsValid,
        )
