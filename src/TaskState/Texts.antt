-- ===== src/TaskState/Texts.antt =====
-- The texts of the states: reading and writing them (coerce_task_state, TaskState.value).
use codex_autopilot.Prelude.{
  String, ◌≡◌, refl, true, false, inl, inr, some, List, [], ◌∷◌, Dict, ok, >>=-eq-ok,
  or_raise-eq-ok, arith, Bool-cases, Option-cases, lookup, get_or, eq_iff, ◌==◌, unknown_task_state,
}
use codex_autopilot.TaskState.{
  TaskState, waiting, value, find_value, coerce_task_state, all_states, normalize, is,
}

-- A state's text is read back as that state.
pub coerce-value : (s : TaskState) → coerce_task_state (value s) ≡ ok s
unfolding coerce_task_state
coerce-value waiting = refl
coerce-value _ = refl

find_value_sound :
    (raw : String) (ss : List TaskState) {s : TaskState}
    → find_value raw ss ≡ some s
    → value s ≡ raw
unfolding find_value
find_value_sound raw [] h = cc
find_value_sound raw (t ∷ ts) h = elim (Bool-cases (value t == raw)) [
  | inl same ↦ ground (arith, (eq_iff (value t) raw).0 same)
  | inr other ↦ find_value_sound raw ts (rw other at h)
]

pub value-coerce : (raw : String) {s : TaskState} → coerce_task_state raw ≡ ok s → value s ≡ raw
unfolding coerce_task_state
value-coerce raw h =
    find_value_sound raw all_states
      (or_raise-eq-ok (find_value raw all_states) (unknown_task_state raw) h)

pub value_injective : (s t : TaskState) → value s ≡ value t → s ≡ t
value_injective s t h = cc (coerce-value s, coerce-value t)

-- Reading every text of a map and writing it again changes nothing.
pub normalize_lem : (m : Dict String) {n : Dict String} → normalize m ≡ ok n → n ≡ m
unfolding normalize
normalize_lem [] h = cc
normalize_lem ((k, raw) ∷ m) h =
    let (s, read, h') = >>=-eq-ok (coerce_task_state raw) _ h in
    let (rest, read_rest, h'') = >>=-eq-ok (normalize m) _ h' in
    cc (value-coerce raw read, normalize_lem m read_rest)

pub is_iff : (s t : TaskState) → is s t ≡ true → s ≡ t
is_iff s t h = ground arith

value-ne-blank : (s : TaskState) → ("" == value s) ≡ false
unfolding value
value-ne-blank waiting = refl
value-ne-blank _ = refl

-- A state that is read by `get` with no default is the one that stands in the map.
pub held_of_get :
    (s : TaskState) (m : Dict String) (k : String)
    → (get_or "" (lookup k m) == value s) ≡ true
    → lookup k m ≡ some (value s)
held_of_get s m k h = elim (Option-cases (lookup k m)) [
  | inl absent ↦ ground (arith, value-ne-blank s)
  | inr found ↦ ground (arith, found.1, eq_iff found.0 (value s))
]
