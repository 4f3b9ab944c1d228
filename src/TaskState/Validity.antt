-- ===== src/TaskState/Validity.antt =====
-- `validate_task_states` decides the validity of a map of states.
use codex_autopilot.Prelude.{
  String, ◌≡◌, refl, sym, subst, inl, inr, true, false, not, [], ◌∷◌, arith, Bool-cases, filter_by,
  All, All-map, elem, Dict, keys, ok, >>=-eq-ok, ensure-eq-ok, ensure-bind-eq-ok, is_empty,
  filter_by_empty, filter_by_none, empty_of_is_empty,
}
use codex_autopilot.Plan.{Plan, ids}
use codex_autopilot.TaskState.Texts.{coerce-value, value-coerce, normalize_lem}
use codex_autopilot.TaskState.Gate.{
  IsKnown, IsEligible, unmet_dependencies_sound, unmet_dependencies_complete,
}
use codex_autopilot.TaskState.{
  TaskState, value, coerce_task_state, among, ungated, normalize, check_entry, gate_entry,
  check_entries, unmet_dependencies, validate_task_states,
}

-- The text is a state's, and a state past the gate has every dependency of its task VERIFIED.
pub record IsGated (plan : Plan) (states : Dict String) (task_id raw : String) : Type 0 where
  pub state : TaskState
  pub read : raw ≡ value state
  pub eligible : among state ungated ≡ false → IsEligible plan states task_id

abbrev pub AllGated : Plan → Dict String → Dict String → Type 0
AllGated plan states m = All (λ entry. IsGated plan states entry.0 entry.1) m

-- The map holds the tasks of the plan and no others, each in a state that its dependencies allow.
pub record IsValid (plan : Plan) (states : Dict String) : Type 0 where
  pub known : IsKnown plan states
  pub complete : All (λ k. elem k (keys states) ≡ true) (ids plan.tasks)
  pub gated : AllGated plan states states

gate_entry_sound :
    (plan : Plan) (states : Dict String) (k : String) (s : TaskState) {u : Unit {0}}
    → gate_entry plan states k s ≡ ok u
    → among s ungated ≡ false
    → IsEligible plan states k
unfolding gate_entry
gate_entry_sound plan states k s h past =
    let (unmet, e, h') = >>=-eq-ok (unmet_dependencies plan k states) _ (rw past at h) in
    let none_unmet : unmet ≡ [] = empty_of_is_empty unmet (ensure-eq-ok (is_empty unmet) _ h') in
    unmet_dependencies_sound plan k states (cc)

gate_entry_complete :
    (plan : Plan) (states : Dict String) (k : String) (s : TaskState)
    → IsKnown plan states
    → (among s ungated ≡ false → IsEligible plan states k)
    → gate_entry plan states k s ≡ ok tt
unfolding gate_entry
gate_entry_complete plan states k s known el = elim (Bool-cases (among s ungated)) [
  | inl free ↦ rw free
  | inr past ↦ rw (past, unmet_dependencies_complete plan k states known (el past))
]

check_entry_sound :
    (plan : Plan) (states : Dict String) (k raw : String) {u : Unit {0}}
    → check_entry plan states k raw ≡ ok u
    → IsGated plan states k raw
unfolding check_entry
check_entry_sound plan states k raw h =
    let (s, read, h') = >>=-eq-ok (coerce_task_state raw) _ h in
    record {
      state = s;
      read = sym (value-coerce raw read);
      eligible = gate_entry_sound plan states k s h';
    }

check_entries_sound :
    (plan : Plan) (states m : Dict String) {u : Unit {0}}
    → check_entries plan states m ≡ ok u
    → AllGated plan states m
unfolding check_entries
check_entries_sound plan states [] h = tt
check_entries_sound plan states ((k, raw) ∷ m) h =
    let (_, first, rest) = >>=-eq-ok (check_entry plan states k raw) _ h in
    (check_entry_sound plan states k raw first, check_entries_sound plan states m rest)

check_entries_complete :
    (plan : Plan) (states m : Dict String)
    → IsKnown plan states
    → AllGated plan states m
    → check_entries plan states m ≡ ok tt
unfolding check_entries check_entry
check_entries_complete plan states [] known h = refl
check_entries_complete plan states ((k, raw) ∷ m) known h =
    let g = h.0 in
    rw (
      g.read,
      coerce-value g.state,
      gate_entry_complete plan states k g.state known g.eligible,
      check_entries_complete plan states m known h.1,
    )

pub normalize_of_gated :
    (plan : Plan) (states m : Dict String) → AllGated plan states m → normalize m ≡ ok m
unfolding normalize
normalize_of_gated plan states [] h = refl
normalize_of_gated plan states ((k, raw) ∷ m) h =
    let g = h.0 in rw (g.read, coerce-value g.state, normalize_of_gated plan states m h.1)

-- A complete map that `validate_task_states` accepts is valid: it holds the plan's tasks and no
-- others, each text names a state, and a state other than WAITING, BLOCKED and CANCELLED has every
-- dependency VERIFIED. What it returns is the map itself.
pub validate_task_states_sound :
    (plan : Plan) (states : Dict String) {out : Dict String}
    → validate_task_states plan states true ≡ ok out
    → IsValid plan states × (out ≡ states)
unfolding validate_task_states
validate_task_states_sound plan states {out} h =
    let task_ids = ids plan.tasks in
    let unknown = filter_by (λ k. not (elem k task_ids)) (keys states) in
    let missing = filter_by (λ k. not (elem k (keys states))) task_ids in
    let (no_unknown, h₁) = ensure-bind-eq-ok (is_empty unknown) _ _ h in
    let (no_missing, h₂) = ensure-bind-eq-ok (is_empty missing) _ _ h₁ in
    let (n, read, h₃) = >>=-eq-ok (normalize states) _ h₂ in
    let (_, checked, h₄) = >>=-eq-ok (check_entries plan n n) _ h₃ in
    let same : n ≡ states = normalize_lem states read in
    (
      record {
        known =
            All-map (keys states) (λ k e. ground arith)
              (filter_by_empty _ (keys states) no_unknown);
        complete = All-map task_ids (λ k e. ground arith) (filter_by_empty _ task_ids no_missing);
        gated = subst (λ m. AllGated plan m m) same (check_entries_sound plan n n checked);
      },
      cc,
    )

-- Every valid map is accepted and returned as it is.
pub validate_task_states_complete :
    (plan : Plan) (states : Dict String)
    → IsValid plan states
    → validate_task_states plan states true ≡ ok states
unfolding validate_task_states
validate_task_states_complete plan states v = rw (
  filter_by_none (λ k. not (elem k (ids plan.tasks))) (keys states)
      (All-map (keys states) (λ k e. ground arith) v.known),
  filter_by_none (λ k. not (elem k (keys states))) (ids plan.tasks)
      (All-map (ids plan.tasks) (λ k e. ground arith) v.complete),
  normalize_of_gated plan states states v.gated,
  check_entries_complete plan states states v.known v.gated,
)
