-- ===== src/TaskState/Runs.antt =====
-- Histories of the state map: any number of accepted transitions, from the initial map on.
use codex_autopilot.Prelude.{
  String, ◌≡◌, refl, ◌∙◌, subst, ◌⊎◌, inl, inr, Bool, true, false, ◌||◌, some, List, [], ◌∷◌, arith,
  eq_iff, ◌==◌, ==_refl, Bool-cases, Option-cases, All, All-map, All-elem, elem, IsDistinct, Dict,
  lookup, insert, keys, lookup-insert, lookup-insert_ne, elem-keys-insert, All-lookup, All-insert,
  ok, is_empty, empty_of_is_empty,
}
use codex_autopilot.Plan.{Task, Plan, ids, find_task}
use codex_autopilot.Plan.Ids.{find_task_self, is_some-find_task}
use codex_autopilot.TaskState.Texts.{value_injective}
use codex_autopilot.TaskState.Gate.{IsEligible, IsMet}
use codex_autopilot.TaskState.Validity.{IsValid, IsGated, validate_task_states_sound}
use codex_autopilot.TaskState.Transitions.{IsTransition, transition_task_sound}
use codex_autopilot.TaskState.{
  validate_task_states, TaskState, waiting, ready, verifying, verified, cancelled, value, is, among,
  ungated, task_transitions, transition_task, initial_entry, initial_from, initial_task_states,
}

-- `transition_task` calls, each accepted, lead from one map to the other.
pub data Run (plan : Plan) (states : Dict String) : Dict String → Type 0 where
  here : Run plan states states
  next :
      {now after : Dict String} (k target : String)
      → Run plan states now
      → transition_task plan now k target ≡ ok after
      → Run plan states after

-- The states that no edge leaves.
abbrev pub is_terminal : TaskState → Bool
is_terminal s = is s verified || is s cancelled

no_exit : (s d : TaskState) → is_terminal s ≡ true → among d (task_transitions s) ≡ false
unfolding task_transitions
no_exit s d h = ground arith

step_terminal :
    (plan : Plan) (now : Dict String) (k target j : String) (s : TaskState) {after : Dict String}
    → is_terminal s ≡ true
    → IsTransition plan now k target after
    → lookup j now ≡ some (value s)
    → lookup j after ≡ some (value s)
step_terminal plan now k target j s terminal t held = elim (Bool-cases (k == j)) [
  | inl same ↦
      let moved : t.source ≡ s =
        value_injective t.source s (ground (arith, eq_iff k j, t.edge.held)) in
      ground (arith, no_exit s t.destination terminal, t.edge.listed)
  | inr other ↦ rw t.written (lookup-insert_ne k j (value t.destination) now other ∙ held)
]

-- If a task is VERIFIED or CANCELLED in a map, it is in the same state in every map that accepted
-- transitions lead to.
pub Run-terminal :
    (plan : Plan) (j : String) (s : TaskState) {states after : Dict String}
    → is_terminal s ≡ true
    → lookup j states ≡ some (value s)
    → Run plan states after
    → lookup j after ≡ some (value s)
Run-terminal plan j s terminal held here = held
Run-terminal plan j s terminal held (next {now = now} k target r e) =
    step_terminal plan now k target j s terminal (transition_task_sound plan now k target e)
      (Run-terminal plan j s terminal held r)

-- A moment of the history at which the task was under independent verification.
pub record WasVerifying (plan : Plan) (states : Dict String) (j : String) : Type 0 where
  pub moment : Dict String
  pub reached : Run plan states moment
  pub verifying_then : lookup j moment ≡ some (value verifying)

only_from_verifying : (s : TaskState) → among verified (task_transitions s) ≡ true → s ≡ verifying
unfolding task_transitions
only_from_verifying s h = ground arith

is_met : (m : Dict String) (j : String) → (IsMet m j) ⊎ (¬ IsMet m j)
is_met m j = elim (Option-cases (lookup j m)) [
  | inl absent ↦ inr (λ e. cc)
  | inr found ↦ elim (Bool-cases (found.0 == value verified)) [
    | inl same ↦ inl (ground (arith, found.1, eq_iff found.0 (value verified)))
    | inr other ↦ inr (λ e. ground (arith, found.1, eq_iff found.0 (value verified)))
  ]
]

step_to_verified :
    (plan : Plan) (now : Dict String) (k target j : String) {after : Dict String}
    → IsTransition plan now k target after
    → ¬ IsMet now j
    → IsMet after j
    → lookup j now ≡ some (value verifying)
step_to_verified plan now k target j t before met = elim (Bool-cases (k == j)) [
  | inl same ↦
      let k_is_j : k ≡ j = (eq_iff k j).0 same in
      let wrote : lookup j (insert k (value t.destination) now) ≡ some (value t.destination) =
        rw (lookup-insert, same) in
      let to_verified : t.destination ≡ verified =
        value_injective t.destination verified (cc (t.written, wrote)) in
      let from : t.source ≡ verifying =
        only_from_verifying t.source
          (subst (λ x. among x (task_transitions t.source) ≡ true) to_verified t.edge.listed) in
      cc (t.edge.held, from, k_is_j)
  | inr other ↦
      absurd (before (cc (t.written, lookup-insert_ne k j (value t.destination) now other)))
]

-- If accepted transitions lead from one map to another, and a task is VERIFIED in the last and not
-- in the first, then it was VERIFYING at some map in between.
pub Run-WasVerifying :
    (plan : Plan) (j : String) {states after : Dict String}
    → Run plan states after
    → ¬ IsMet states j
    → IsMet after j
    → WasVerifying plan states j
Run-WasVerifying plan j here before now = absurd (before now)
Run-WasVerifying plan j (next {now = now} k target r e) before after_met = elim (is_met now j) [
  | inl met ↦ Run-WasVerifying plan j r before met
  | inr unmet ↦ record {
    moment = now;
    reached = r;
    verifying_then =
        step_to_verified plan now k target j (transition_task_sound plan now k target e) unmet
          after_met;
  }
]

-- `d` is a dependency of the task `k`, or one of a dependency, and so on down.
pub data Upstream (plan : Plan) : String → String → Type 0 where
  direct :
      {k d : String} (t : Task)
      → find_task k plan.tasks ≡ some t
      → elem d t.depends_on ≡ true
      → Upstream plan k d
  further : {k d : String} (j : String) → Upstream plan k j → Upstream plan j d → Upstream plan k d

eligible_direct :
    (plan : Plan) (states : Dict String) (k d : String) (t : Task)
    → IsEligible plan states k
    → find_task k plan.tasks ≡ some t
    → elem d t.depends_on ≡ true
    → IsMet states d
eligible_direct plan states k d t el found m =
    let same : el.task ≡ t = cc el.found in
    All-elem (IsMet states) t.depends_on d
      (subst (λ u. All (IsMet states) u.depends_on) same el.met) m

module _ (plan : Plan) (states : Dict String) (v : IsValid plan states) where
  gate_at :
      (k : String) (s : TaskState)
      → lookup k states ≡ some (value s)
      → among s ungated ≡ false
      → IsEligible plan states k
  gate_at k s held past =
      let g =
        All-lookup (λ entry. IsGated plan states entry.0 entry.1) states k (value s) v.gated held in
      g.eligible (subst (λ x. among x ungated ≡ false) (value_injective s g.state g.read) past)

  rests_on_verified :
      (k d : String) (s : TaskState)
      → lookup k states ≡ some (value s)
      → among s ungated ≡ false
      → Upstream plan k d
      → IsMet states d
  rests_on_verified k d s held past (direct t found m) =
      eligible_direct plan states k d t (gate_at k s held past) found m
  rests_on_verified k d s held past (further j up down) =
      rests_on_verified j d verified (rests_on_verified k j s held past up) refl down

-- If `validate_task_states` accepts a complete map, and a task of it is in a state other than
-- WAITING, BLOCKED and CANCELLED, then every task that it rests on, at any depth, is VERIFIED.
pub started_rests_on_verified :
    (plan : Plan) (states : Dict String) (k d : String) (s : TaskState) {out : Dict String}
    → validate_task_states plan states true ≡ ok out
    → lookup k states ≡ some (value s)
    → among s ungated ≡ false
    → Upstream plan k d
    → IsMet states d
started_rests_on_verified plan states k d s accepted =
    rests_on_verified plan states (validate_task_states_sound plan states accepted).0 k d s

-- The entry that the initial map has for a task.
IsInitial : Plan → String × String → Type 0
IsInitial plan entry =
    (t : Task) × (find_task entry.0 plan.tasks ≡ some t) × (entry.1 ≡ initial_entry t)

initial_from-All :
    (plan : Plan) (ts : List Task) (m : Dict String)
    → All (λ t. find_task t.id plan.tasks ≡ some t) ts
    → All (IsInitial plan) m
    → All (IsInitial plan) (initial_from ts m)
unfolding initial_from IsInitial
initial_from-All plan [] m h hm = hm
initial_from-All plan (t ∷ ts) m h hm =
    initial_from-All plan ts (insert t.id (initial_entry t) m) h.1
      (All-insert (IsInitial plan) m t.id (initial_entry t) hm (t, h.0, refl))

initial_from_keeps :
    (ts : List Task) (m : Dict String) (k : String)
    → elem k (keys m) ≡ true
    → elem k (keys (initial_from ts m)) ≡ true
unfolding initial_from
initial_from_keeps [] m k h = h
initial_from_keeps (t ∷ ts) m k h =
    initial_from_keeps ts (insert t.id (initial_entry t) m) k
      (ground (arith, elem-keys-insert t.id k (initial_entry t) m))

initial_from_covers :
    (ts : List Task) (m : Dict String)
    → All (λ k. elem k (keys (initial_from ts m)) ≡ true) (ids ts)
unfolding initial_from
initial_from_covers [] m = tt
initial_from_covers (t ∷ ts) m = (
  initial_from_keeps ts (insert t.id (initial_entry t) m) t.id
      (ground (arith, elem-keys-insert t.id t.id (initial_entry t) m, ==_refl t.id)),
  initial_from_covers ts (insert t.id (initial_entry t) m),
)

All-keys : (P : String → Type 0) (m : Dict String) → All (λ entry. P entry.0) m → All P (keys m)
All-keys P [] h = tt
All-keys P ((k, v) ∷ m) h = (h.0, All-keys P m h.1)

initial_IsGated :
    (plan : Plan) (states : Dict String) (entry : String × String)
    → IsInitial plan entry
    → IsGated plan states entry.0 entry.1
unfolding IsInitial initial_entry
initial_IsGated plan states entry (t, found, read) = elim (Bool-cases (is_empty t.depends_on)) [
  | inl free ↦ record {
    state = ready;
    read = ground arith;
    eligible = λ past. record {
      task = t;
      found = found;
      met = rw (empty_of_is_empty t.depends_on free) tt;
    };
  }
  | inr bound ↦ record { state = waiting; read = ground arith; eligible = λ past. cc }
]

elem_of_found :
    (k : String) (ts : List Task) {t : Task} → find_task k ts ≡ some t → elem k (ids ts) ≡ true
elem_of_found k ts found = ground (arith, is_some-find_task k ts)

-- If the ids of a plan are distinct, its initial map is valid.
pub initial_task_states-IsValid :
    (plan : Plan) → IsDistinct (ids plan.tasks) → IsValid plan (initial_task_states plan)
unfolding initial_task_states IsInitial
initial_task_states-IsValid plan distinct =
    let start = initial_task_states plan in
    let entries = initial_from-All plan plan.tasks [] (find_task_self plan.tasks distinct) tt in
    record {
      known =
          All-keys (λ k. elem k (ids plan.tasks) ≡ true) start
            (All-map start (λ entry i. elem_of_found entry.0 plan.tasks i.1) entries);
      complete = initial_from_covers plan.tasks [];
      gated = All-map start (initial_IsGated plan start) entries;
    }
