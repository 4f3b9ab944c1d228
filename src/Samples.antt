-- ===== src/Samples.antt =====
-- A small plan and a state of it, for the tests and the concrete instances of the theorems.
use codex_autopilot.Prelude.{ℕ, String, true, false, none, List, [], ◌∷◌, Dict}
use codex_autopilot.Plan.{Task, Plan}
use codex_autopilot.Usage.{missing}
use codex_autopilot.RunState.{RunState}
use codex_autopilot.Scheduler.Availability.{Availability}

abbrev pub task : String → List String → ℕ → Task
task id deps priority = record {
  id = id;
  body = "";
  execution_mode = "code";
  reasoning = none;
  role = "engineer";
  depends_on = deps;
  priority = priority;
  verification = record {
    policy = "independent";
    required = true;
    verifier_role = none;
    max_revision_attempts = 2;
  };
  resources = [];
  required_capabilities = "gpu" ∷ [];
}

-- A is a root, B and C rest on it, and D rests on B and C.
abbrev pub plan : Plan
plan = record {
  model_strategy = "auto";
  tasks =
      task "A" [] 5
      ∷ task "B" ("A" ∷ []) 5
      ∷ task "C" ("A" ∷ []) 9
      ∷ task "D" ("B" ∷ "C" ∷ []) 5
      ∷ [];
  graph_version = 1;
  execution_strategy = "parallel";
  max_parallel_workers = 2;
  computer_use_slots = 1;
  legacy_serial = false;
  has_goal_contract = false;
}

abbrev pub states : String → String → String → String → Dict String
states a b c d = ("A", a) ∷ ("B", b) ∷ ("C", c) ∷ ("D", d) ∷ []

abbrev pub state_with : Dict String → List String → RunState
state_with task_states active = record {
  status = "READY";
  phase = "READY";
  run_id = "run-1";
  graph_version = 1;
  execution_strategy = "parallel";
  max_parallel_workers = 2;
  computer_use_slots = 1;
  task_states = task_states;
  task_attempts = [];
  task_revisions = [];
  task_rehires = [];
  task_effort = [];
  task_revision_basis = [];
  lifecycle_journal_sequence = 0;
  lifecycle_journal = [];
  task_retry_at = [];
  active_task_ids = active;
  scheduler_sequence = 0;
  task_ready_since = [];
  rate_limits = missing;
  plan_verification = none;
  resource_locks = [];
  resource_lock_journal = [];
  resource_journal_sequence = 0;
  worker_sessions = [];
  plan_change_sequence = 0;
  active_plan_change_id = none;
  plan_changes = [];
  resilience_journal_sequence = 0;
  resilience_journal = [];
}

abbrev pub digest : Plan → String
digest p = "digest"

abbrev pub open_house : Availability
open_house = record {
  available_capabilities = none;
  capability_limits = ("gpu", 1) ∷ [];
  resource_available = [];
  resource_conflicts = [];
  blocked_reasons = [];
}
