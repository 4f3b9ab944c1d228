-- ===== src/TaskState.antt =====
-- The task lifecycle (src/codex_autopilot/task_state.py): the states, the table of transitions, the
-- dependency gate, and the operations on the durable map of states. A map holds the states' texts,
-- as the run-state file does; a text that names no state is refused where it is read.
pub mod Texts
pub mod Gate
pub mod Validity
pub mod Transitions
pub mod Runs
pub mod Migrate
mod Examples
use codex_autopilot.Prelude.{
  String, Bool, true, false, not, Option, none, some, List, [], ◌∷◌, Dict, keys, lookup, insert,
  elem, filter_by, is_empty, Result, ok, err, ◌>>=◌, ◌>>◌, ensure, or_raise, key_error,
  unknown_task_state, unknown_task_id, no_state_entry, unknown_tasks, missing_tasks,
  unmet_dependencies_of, state_map_mismatch, independent_verification_required, illegal_transition,
  not_dependency_eligible, ◌==◌, if◌then◌else◌, ℕ, nat_eq, ◌&&◌, ◌||◌,
}
use codex_autopilot.Plan.{Task, Plan, ids, find_task}

pub data TaskState : Type 0 where
  waiting ready running implemented verifying revision_required : TaskState
  revising retry_wait verified blocked failed cancelled : TaskState

-- TaskState.X.value
unfoldable pub value : TaskState → String
value waiting = "WAITING"
value ready = "READY"
value running = "RUNNING"
value implemented = "IMPLEMENTED"
value verifying = "VERIFYING"
value revision_required = "REVISION_REQUIRED"
value revising = "REVISING"
value retry_wait = "RETRY_WAIT"
value verified = "VERIFIED"
value blocked = "BLOCKED"
value failed = "FAILED"
value cancelled = "CANCELLED"

abbrev all_states : List TaskState
all_states =
    waiting ∷ ready ∷ running ∷ implemented ∷ verifying ∷ revision_required ∷ revising ∷ retry_wait
    ∷ verified ∷ blocked ∷ failed ∷ cancelled ∷ []

unfoldable pub find_value : String → List TaskState → Option TaskState
find_value raw [] = none
find_value raw (s ∷ ss) = if value s == raw then some s else find_value raw ss

unfoldable pub coerce_task_state : String → Result TaskState
unfolding find_value value
coerce_task_state raw = or_raise (find_value raw all_states) (unknown_task_state raw)

-- States are told apart by their place in the enumeration.
abbrev place : TaskState → ℕ
place waiting = 0
place ready = 1
place running = 2
place implemented = 3
place verifying = 4
place revision_required = 5
place revising = 6
place retry_wait = 7
place verified = 8
place blocked = 9
place failed = 10
place cancelled = 11

abbrev pub is : TaskState → TaskState → Bool
is s t = nat_eq (place s) (place t)

abbrev pub among : TaskState → List TaskState → Bool
among s [] = false
among s (t ∷ ts) = is s t || among s ts

abbrev pub active_task_states : List TaskState
active_task_states = running ∷ verifying ∷ revising ∷ []

unfoldable pub task_transitions : TaskState → List TaskState
task_transitions waiting = ready ∷ blocked ∷ cancelled ∷ []
task_transitions ready = running ∷ blocked ∷ cancelled ∷ []
task_transitions running = implemented ∷ retry_wait ∷ blocked ∷ failed ∷ cancelled ∷ []
task_transitions implemented = verifying ∷ blocked ∷ cancelled ∷ []
task_transitions verifying =
    verified ∷ revision_required ∷ implemented ∷ retry_wait ∷ blocked ∷ failed ∷ cancelled ∷ []
task_transitions revision_required = revising ∷ blocked ∷ cancelled ∷ []
task_transitions revising = implemented ∷ retry_wait ∷ blocked ∷ failed ∷ cancelled ∷ []
task_transitions retry_wait = ready ∷ blocked ∷ cancelled ∷ []
task_transitions blocked = waiting ∷ ready ∷ implemented ∷ cancelled ∷ []
task_transitions failed = retry_wait ∷ cancelled ∷ []
task_transitions verified = []
task_transitions cancelled = []

-- {task.id: READY if not task.depends_on else WAITING for task in tasks}
unfoldable pub initial_entry : Task → String
unfolding value
initial_entry t = if is_empty t.depends_on then value ready else value waiting

unfoldable pub initial_from : List Task → Dict String → Dict String
initial_from [] m = m
initial_from (t ∷ ts) m = initial_from ts (insert t.id (initial_entry t) m)

unfoldable pub initial_task_states : Plan → Dict String
unfolding initial_from initial_entry
initial_task_states plan = initial_from plan.tasks []

unfoldable pub dependency_state_satisfies : Task → String → Result Bool
dependency_state_satisfies task raw = do resolved ← coerce_task_state raw; ok (is resolved verified)

-- _task
unfoldable pub get_task : Plan → String → Result Task
get_task plan task_id = or_raise (find_task task_id plan.tasks) (unknown_task_id task_id)

-- One round of the loop of `unmet_dependencies`: whether this dependency is met.
unfoldable pub dependency_met : Plan → Dict String → String → Result Bool
unfolding dependency_state_satisfies
dependency_met plan states d = elim (lookup d states) [
  | none ↦ ok false
  | some raw ↦ do
    task ← or_raise (find_task d plan.tasks) (key_error d)
    dependency_state_satisfies task raw
]

unfoldable pub unmet_from : Plan → Dict String → List String → Result (List String)
unmet_from plan states [] = ok []
unmet_from plan states (d ∷ ds) = do
  met ← dependency_met plan states d
  rest ← unmet_from plan states ds
  ok (if met then rest else d ∷ rest)

unfoldable pub unmet_dependencies : Plan → String → Dict String → Result (List String)
unmet_dependencies plan task_id states = do
  task ← get_task plan task_id
  unmet_from plan states task.depends_on

unfoldable pub dependencies_eligible : Plan → String → Dict String → Result Bool
dependencies_eligible plan task_id states = do
  unmet ← unmet_dependencies plan task_id states
  ok (is_empty unmet)

-- {task_id: coerce_task_state(value).value for ...}
unfoldable pub normalize : Dict String → Result (Dict String)
normalize [] = ok []
normalize ((k, raw) ∷ m) = do
  s ← coerce_task_state raw
  rest ← normalize m
  ok ((k, value s) ∷ rest)

-- The states that a task may hold while a dependency of it is not verified.
abbrev pub ungated : List TaskState
ungated = waiting ∷ blocked ∷ cancelled ∷ []

-- One round of the loop of `validate_task_states`: the state's gate, and the state read first.
unfoldable pub gate_entry : Plan → Dict String → String → TaskState → Result (Unit {0})
gate_entry plan states task_id state = if among state ungated then ok tt else (do
  unmet ← unmet_dependencies plan task_id states
  ensure (is_empty unmet) (unmet_dependencies_of task_id unmet))

unfoldable pub check_entry : Plan → Dict String → String → String → Result (Unit {0})
check_entry plan states task_id raw = do
  state ← coerce_task_state raw
  gate_entry plan states task_id state

unfoldable pub check_entries : Plan → Dict String → Dict String → Result (Unit {0})
check_entries plan states [] = ok tt
check_entries plan states ((k, raw) ∷ m) =
    check_entry plan states k raw >> check_entries plan states m

unfoldable pub validate_task_states : Plan → Dict String → Bool → Result (Dict String)
validate_task_states plan states require_complete = do
  let unknown = filter_by (λ k. not (elem k (ids plan.tasks))) (keys states)
  let missing = filter_by (λ k. not (elem k (keys states))) (ids plan.tasks)
  ensure (is_empty unknown) (unknown_tasks unknown)
  ensure (not require_complete || is_empty missing) (missing_tasks missing)
  normalized ← normalize states
  check_entries plan normalized normalized
  ok normalized

-- The dependency guard of `validate_transition`.
unfoldable pub check_eligible : Plan → String → Dict String → TaskState → Result (Unit {0})
check_eligible plan task_id states destination =
    if among destination (ready ∷ running ∷ [])
    then (do
      unmet ← unmet_dependencies plan task_id states
      ensure (is_empty unmet) (not_dependency_eligible task_id unmet))
    else ok tt

-- task_id not in states or coerce_task_state(states[task_id]) is not source
unfoldable pub matches_map : Dict String → String → TaskState → Result Bool
matches_map states task_id source = elim (lookup task_id states) [
  | none ↦ ok false
  | some raw ↦ do held ← coerce_task_state raw; ok (is held source)
]

unfoldable pub validate_transition :
    Plan → String → String → String → Dict String → Result TaskState
unfolding get_task matches_map check_eligible
validate_transition plan task_id current target states = do
  task ← get_task plan task_id
  source ← coerce_task_state current
  destination ← coerce_task_state target
  same ← matches_map states task_id source
  ensure same (state_map_mismatch task_id)
  ensure (not (is source implemented && is destination verified))
      (independent_verification_required task_id)
  ensure (among destination (task_transitions source)) (illegal_transition task_id)
  check_eligible plan task_id states destination
  ok destination

unfoldable pub transition_task : Plan → Dict String → String → String → Result (Dict String)
transition_task plan states task_id target = do
  current ← or_raise (lookup task_id states) (no_state_entry task_id)
  destination ← validate_transition plan task_id current target states
  normalized ← normalize states
  let updated = insert task_id (value destination) normalized
  checked ← validate_task_states plan updated true
  ok updated
