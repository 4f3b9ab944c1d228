-- ===== src/Scheduler.antt =====
-- The scheduler (src/codex_autopilot/scheduler.py): readiness and its ages, the priority order, the
-- availability snapshot, and one bounded launch decision.
pub mod Ready
pub mod Priority
pub mod Availability
pub mod Decision
