-- ===== src/Usage.antt =====
-- How many workers may run (src/codex_autopilot/usage.py). `usedPercent` is a float in the source;
-- here it is a number of hundredths of a percent. A JSON mapping that is absent and a value that
-- is no mapping are both `none`.
pub mod Bounds
mod Examples
use codex_autopilot.Prelude.{
  ℕ, ◌-◌, ◌/◌, min, max, Bool, true, false, ◌&&◌, ◌||◌, not, Option, none, some, String, leb,
  if◌then◌else◌, ◌==◌,
}

pub record Credits : Type 0 where
  pub unlimited : Bool
  pub has_credits : Bool

pub record Snapshot : Type 0 where
  pub credits : Option Credits
  pub spend_control_reached : Bool
  pub rate_limit_reached_type : Option String
  pub primary_used : Option ℕ
  -- whether the mapping has any key at all
  pub filled : Bool

-- The App Server event wraps the snapshot under "rateLimits"; what was read on demand is flat.
pub data Limits : Type 0 where
  missing : Limits
  wrapped flat : Snapshot → Limits

pub data Reason : Type 0 where
  no_data spend_cap exhausted unlimited_by_user unlimited_billing usage_unknown : Reason
  window_used : ℕ → Reason

pub record WorkerBudget : Type 0 where
  pub workers : Option ℕ
  pub reason : Reason
  pub limited : Bool

-- _snapshot; the empty mapping is `none`
unwrap : Limits → Option Snapshot
unwrap missing = none
unwrap (wrapped s) = if s.filled then some s else none
unwrap (flat s) = if s.filled then some s else none

-- _burns_without_a_wall
unfoldable pub burns_without_a_wall : Option Credits → Bool
burns_without_a_wall none = false
burns_without_a_wall (some c) = c.unlimited || c.has_credits

-- The truth of an optional text: absent and "" are false.
abbrev truthy : Option String → Bool
truthy none = false
truthy (some t) = not (t == "")

abbrev budget : Option ℕ → Reason → Bool → WorkerBudget
budget workers reason limited = record { workers = workers; reason = reason; limited = limited }

-- The tail of `worker_budget`, where the window is a wall: 10000 hundredths are the whole window.
window_budget : ℕ → Option ℕ → WorkerBudget
window_budget declared none = budget (some declared) usage_unknown false
window_budget declared (some used) =
    let remaining = 10000 - used in
    if leb 5000 remaining
    then budget (some declared) (window_used used) false
    else if leb 2500 remaining
    then budget (some (min declared (max 2 (declared / 2)))) (window_used used) true
    else if leb 1000 remaining
    then budget (some (min declared 2)) (window_used used) true
    else budget (some 1) (window_used used) true

snapshot_budget : ℕ → Bool → Option Snapshot → WorkerBudget
unfolding window_budget burns_without_a_wall
snapshot_budget declared by_user none = budget (some declared) no_data false
snapshot_budget declared by_user (some s) =
    if s.spend_control_reached
    then budget (some 1) spend_cap true
    else if truthy s.rate_limit_reached_type
    then budget (some 1) exhausted true
    else if burns_without_a_wall s.credits
    then (if by_user
        then budget (some declared) unlimited_by_user false
        else budget none unlimited_billing false)
    else window_budget declared s.primary_used

unfoldable pub worker_budget : ℕ → Limits → Bool → WorkerBudget
unfolding snapshot_budget unwrap
worker_budget declared limits by_user = snapshot_budget (max 1 declared) by_user (unwrap limits)
