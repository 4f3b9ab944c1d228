-- ===== src/Usage/Examples.antt =====
-- The worker budget at concrete limits.
use codex_autopilot.Prelude.{true, false, none, some}
use codex_autopilot.Usage.{Snapshot, flat, worker_budget}
use codex_autopilot.Usage.Bounds.{IsWithin, worker_budget-IsWithin}

abbrev snapshot : Snapshot
snapshot = record {
  credits = some (record { unlimited = true; has_credits = false });
  spend_control_reached = false;
  rate_limit_reached_type = none;
  primary_used = some 8000;
  filled = true;
}

abbrev walled : Snapshot
walled = record snapshot { credits = none }

worker_budget-IsWithin_example : IsWithin 6 (worker_budget 6 (flat walled) false).workers
worker_budget-IsWithin_example = worker_budget-IsWithin 6 (flat walled) false
