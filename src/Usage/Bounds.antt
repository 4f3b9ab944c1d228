-- ===== src/Usage/Bounds.antt =====
-- The worker budget stays within what was declared, and only falls as the window fills.
use codex_autopilot.Prelude.{ℕ, ◌≤◌, max, ◌≡◌, ◌↔◌, Bool, true, false, Option, none, some, arith}
use codex_autopilot.Usage.{
  Snapshot, Limits, flat, worker_budget, snapshot_budget, window_budget, burns_without_a_wall,
}

-- A number of workers between one and the declared number (at least one), or no ceiling.
abbrev pub IsWithin : ℕ → Option ℕ → Type 0
IsWithin declared none = Unit
IsWithin declared (some n) = (1 ≤ n) × (n ≤ max 1 declared)

snapshot-IsWithin :
    (d : ℕ) (by_user : Bool) (o : Option Snapshot)
    → 1 ≤ d
    → IsWithin d (snapshot_budget d by_user o).workers
unfolding snapshot_budget
snapshot-IsWithin d by_user none h = ground arith
snapshot-IsWithin d by_user (some s) h = ground arith

-- The budget is no ceiling at all, or at least one worker and at most the declared number, where a
-- declared zero counts as one.
pub worker_budget-IsWithin :
    (declared : ℕ) (limits : Limits) (by_user : Bool)
    → IsWithin declared (worker_budget declared limits by_user).workers
unfolding worker_budget
worker_budget-IsWithin declared limits by_user = ground arith

-- At most as many workers, where no ceiling is more than every number.
abbrev pub AtMost : Option ℕ → Option ℕ → Type 0
AtMost a none = Unit
AtMost none (some n) = ⊥
AtMost (some m) (some n) = m ≤ n

abbrev pub with_usage : Snapshot → ℕ → Limits
with_usage s used = flat (record s { primary_used = some used })

window_mono :
    (d u v : ℕ)
    → 1 ≤ d
    → u ≤ v
    → AtMost (window_budget d (some v)).workers (window_budget d (some u)).workers
unfolding window_budget
window_mono d u v h le = ground arith

-- All else equal, a window that is used more never gives more workers, where no ceiling is more
-- than every number.
pub worker_budget_mono :
    (declared u v : ℕ) (s : Snapshot) (by_user : Bool)
    → u ≤ v
    → AtMost
        (worker_budget declared (with_usage s v) by_user).workers
        (worker_budget declared (with_usage s u) by_user).workers
unfolding worker_budget
worker_budget_mono declared u v s by_user le = ground (arith, window_mono (max 1 declared) u v)

-- If the snapshot is not empty and no limit is reached, the budget has no ceiling exactly when no
-- spending cap is reached, the billing has no wall, and the owner named no number.
pub worker_budget_unlimited :
    (declared : ℕ) (s : Snapshot) (by_user : Bool)
    → s.filled ≡ true
    → s.rate_limit_reached_type ≡ none
    → ((worker_budget declared (flat s) by_user).workers ≡ none) ↔ (
        (s.spend_control_reached ≡ false)
        × (burns_without_a_wall s.credits ≡ true)
        × (by_user ≡ false))
unfolding worker_budget
worker_budget_unlimited declared s by_user filled open_limit = ground arith
