-- ===== src/RunState.antt =====
-- The durable state of a run (src/codex_autopilot/run_state.py): the fields that the modelled
-- operations read or write. A dictionary of the state file is a `Dict`.
use codex_autopilot.Prelude.{ℕ, String, Option, List, Dict}
use codex_autopilot.Usage.{Limits}
use codex_autopilot.PlanGate.{Json}
use codex_autopilot.Resources.{DurableResourceLock, LockEvent}

-- An entry of `resilience_journal`; `detail` is kept as a text.
pub record ResilienceEvent : Type 0 where
  pub sequence : ℕ
  pub event : String
  pub task_id : Option String
  pub plan_change_id : Option ℕ

-- What a task's revisions were spent against (revision_budget.basis_for): an entry of
-- `task_revision_basis`. A key that is missing is `none`.
pub record RevisionBasis : Type 0 where
  pub graph_version : Option ℕ
  pub depends_on : Option (List String)
  pub granted_on : Option String

-- An entry of `lifecycle_journal`.
pub record LifecycleEvent : Type 0 where
  pub sequence : ℕ
  pub event : String
  pub task_id : String

-- A typed request of a worker to change the plan (resilience.PlanChangeRequest), without its texts.
pub record PlanChangeRequest : Type 0 where
  pub kind : String
  pub target_task_id : String
  pub evidence_ids : List String

-- An entry of `plan_changes`. Its id is the text `PC` and a number; here it is the number.
pub record PlanChange : Type 0 where
  pub id : ℕ
  pub status : String
  pub requester_task_id : String
  pub requester_session_token : String
  pub base_graph_version : ℕ
  pub request : PlanChangeRequest
  pub created_at : String
  pub applied_graph_version : Option ℕ
  pub completed_at : Option String

-- An entry of `worker_sessions`.
pub record WorkerSession : Type 0 where
  pub reservation_token : String
  pub resource_ownership_token : Option String
  pub operation_id : String
  pub task_id : String
  pub kind : String
  pub status : String
  pub attempt : ℕ
  pub relay_owner_thread_id : Option String
  pub failure_reason : Option String

pub record RunState : Type 0 where
  pub status : String
  pub phase : String
  pub run_id : String
  pub graph_version : ℕ
  pub execution_strategy : String
  pub max_parallel_workers : ℕ
  pub computer_use_slots : ℕ
  pub task_states : Dict String
  pub task_attempts : Dict ℕ
  pub task_revisions : Dict ℕ
  pub task_rehires : Dict ℕ
  pub task_effort : Dict String
  pub task_revision_basis : Dict RevisionBasis
  pub lifecycle_journal_sequence : ℕ
  pub lifecycle_journal : List LifecycleEvent
  pub task_retry_at : Dict ℕ
  pub active_task_ids : List String
  pub scheduler_sequence : ℕ
  pub task_ready_since : Dict ℕ
  pub rate_limits : Limits
  pub plan_verification : Option (Dict Json)
  pub resource_locks : List DurableResourceLock
  pub resource_lock_journal : List LockEvent
  pub resource_journal_sequence : ℕ
  pub worker_sessions : List WorkerSession
  pub plan_change_sequence : ℕ
  pub active_plan_change_id : Option ℕ
  pub plan_changes : List PlanChange
  pub resilience_journal_sequence : ℕ
  pub resilience_journal : List ResilienceEvent
