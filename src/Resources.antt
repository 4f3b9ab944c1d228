-- ===== src/Resources.antt =====
-- Durable ownership of resources (src/codex_autopilot/resources.py): normalized claims, locks and
-- the journal of their acquisition and release. The JSON objects of the run-state file are the
-- records here; the checks of their shape, of blank texts and of timestamps (the `from_dict`
-- readers) are not modelled.
pub mod Targets
pub mod Conflicts
pub mod Journal
pub mod Normalize
pub mod Requests
pub mod Locks
pub mod Snapshot
use codex_autopilot.Prelude.{ℕ, String, Option, List}

pub record NormalizedResourceClaim : Type 0 where
  pub id : String
  pub kind : String
  pub target : String
  pub access : String

pub record LockOwner : Type 0 where
  pub ownership_token : String
  pub run_id : String
  pub task_id : String
  pub attempt : ℕ
  pub worker_id : String
  pub thread_id : Option String
  pub turn_id : Option String

pub record DurableResourceLock : Type 0 where
  pub lock_id : String
  pub owner : LockOwner
  pub claims : List NormalizedResourceClaim
  pub acquired_at : String
  pub heartbeat_at : String
  pub computer_use_slot : Option ℕ

-- An entry of `resource_lock_journal`.
pub record LockEvent : Type 0 where
  pub sequence : ℕ
  pub event : String
  pub lock_id : String
  pub ownership_token : String
  pub task_id : String
  pub at : String
  pub claim_ids : List String
  pub computer_use_slot : Option ℕ
  pub reason : Option String
