-- ===== src/TaskState/Examples.antt =====
-- The lifecycle on a small plan: A is VERIFIED and B moves from RUNNING to VERIFIED.
use codex_autopilot.Prelude.{String, ◌≡◌, refl, true, some, [], ◌∷◌, Dict, lookup, insert, ok}
use codex_autopilot.Plan.{find_task}
use codex_autopilot.Samples.{plan, task, states}
use codex_autopilot.TaskState.Gate.{IsMet}
use codex_autopilot.TaskState.Validity.{
  IsValid, validate_task_states_sound, validate_task_states_complete,
}
use codex_autopilot.TaskState.Transitions.{
  IsEdge, IsTransition, transition_task_sound, transition_task_complete,
}
use codex_autopilot.TaskState.Runs.{
  Run, here, next, Run-terminal, Run-WasVerifying, WasVerifying, direct, further,
  started_rests_on_verified,
}
use codex_autopilot.TaskState.{
  running, implemented, verified, value, find_value, coerce_task_state, task_transitions,
  dependency_state_satisfies, get_task, dependency_met, unmet_from, unmet_dependencies,
  dependencies_eligible, normalize, gate_entry, check_entry, check_entries, validate_task_states,
  check_eligible, matches_map, validate_transition, transition_task, initial_task_states,
  initial_from, initial_entry,
}

program : Unit {0}
unfolding lookup insert find_task value find_value coerce_task_state task_transitions
    dependency_state_satisfies get_task dependency_met unmet_from unmet_dependencies
    dependencies_eligible normalize gate_entry check_entry check_entries validate_task_states
    check_eligible matches_map validate_transition transition_task initial_task_states initial_from
    initial_entry
program = tt

abbrev started : Dict String
started = states "VERIFIED" "RUNNING" "READY" "WAITING"

abbrev handed_in : Dict String
handed_in = states "VERIFIED" "IMPLEMENTED" "READY" "WAITING"

abbrev under_review : Dict String
under_review = states "VERIFIED" "VERIFYING" "READY" "WAITING"

abbrev accepted : Dict String
accepted = states "VERIFIED" "VERIFIED" "READY" "WAITING"

abbrev abandoned : Dict String
abandoned = states "VERIFIED" "VERIFIED" "CANCELLED" "WAITING"

validate-started : validate_task_states plan started true ≡ ok started
unfolding program
validate-started = refl

hand_in : transition_task plan started "B" "IMPLEMENTED" ≡ ok handed_in
unfolding program
hand_in = refl

review : transition_task plan handed_in "B" "VERIFYING" ≡ ok under_review
unfolding program
review = refl

accept : transition_task plan under_review "B" "VERIFIED" ≡ ok accepted
unfolding program
accept = refl

abandon : transition_task plan accepted "C" "CANCELLED" ≡ ok abandoned
unfolding program
abandon = refl

history : Run plan started accepted
history =
    next "B" "VERIFIED" (next "B" "VERIFYING" (next "B" "IMPLEMENTED" here hand_in) review) accept

abbrev last : Dict String
last = states "VERIFIED" "VERIFIED" "VERIFIED" "RUNNING"

validate-last : validate_task_states plan last true ≡ ok last
unfolding program
validate-last = refl

started-IsValid : IsValid plan started
started-IsValid = (validate_task_states_sound plan started validate-started).0

find_task-B : find_task "B" plan.tasks ≡ some (task "B" ("A" ∷ []) 5)
unfolding program
find_task-B = refl

find_task-D : find_task "D" plan.tasks ≡ some (task "D" ("B" ∷ "C" ∷ []) 5)
unfolding program
find_task-D = refl

running_B : IsEdge plan started "B" running implemented
unfolding program
running_B = record { held = refl; listed = refl; eligible = λ launches. cc }

started_B : lookup "B" started ≡ some (value running)
unfolding program
started_B = refl

last_D : lookup "D" last ≡ some (value running)
unfolding program
last_D = refl

accepted_B : lookup "B" accepted ≡ some (value verified)
unfolding program
accepted_B = refl

B-not-IsMet : ¬ IsMet started "B"
unfolding program
B-not-IsMet met = cc

validate_task_states_sound_example : IsValid plan started × (started ≡ started)
validate_task_states_sound_example = validate_task_states_sound plan started validate-started

validate_task_states_complete_example : validate_task_states plan started true ≡ ok started
validate_task_states_complete_example = validate_task_states_complete plan started started-IsValid

transition_task_sound_example : IsTransition plan started "B" "IMPLEMENTED" handed_in
transition_task_sound_example = transition_task_sound plan started "B" "IMPLEMENTED" hand_in

transition_task_complete_example :
    transition_task plan started "B" (value implemented)
    ≡ ok (insert "B" (value implemented) started)
transition_task_complete_example =
    transition_task_complete plan started "B" running implemented started-IsValid running_B
      (λ lifts. cc)

Run-terminal_example : lookup "B" abandoned ≡ some (value verified)
Run-terminal_example =
    Run-terminal plan "B" verified refl accepted_B (next "C" "CANCELLED" here abandon)

Run-WasVerifying_example : WasVerifying plan started "B"
Run-WasVerifying_example = Run-WasVerifying plan "B" history B-not-IsMet accepted_B

started_rests_on_verified_example : IsMet last "A"
started_rests_on_verified_example =
    started_rests_on_verified plan last "D" "A" running validate-last last_D refl (
      further "B" (direct (task "D" ("B" ∷ "C" ∷ []) 5) find_task-D refl)
        (direct (task "B" ("A" ∷ []) 5) find_task-B refl))
