-- ===== src/Resilience/Running/Silence.antt =====
-- A worker that nobody says is gone keeps its task and its locks (reconcile_running_work of
-- src/codex_autopilot/resilience.py).
use codex_autopilot.Prelude.{
  ℕ, ◌+◌, String, ◌≡◌, refl, sym, subst, inl, inr, Bool, true, ◌&&◌, ◌||◌, [], ◌∷◌, ◌++◌, arith,
  eq_iff, ◌==◌, Bool-cases, All, elem, Dict, lookup, ok,
}
use codex_autopilot.Plan.{Plan}
use codex_autopilot.TaskState.{validate_task_states}
use codex_autopilot.RunState.{RunState, WorkerSession}
use codex_autopilot.Resources.Normalize.{Host}
use codex_autopilot.Resilience.Running.{
  Reconciliation, check_observations, pending_from, lock_ids_by_token, observed_of,
  reconcile_session, reconcile_sessions, untouched, reconcile_running_work,
  authoritative_worker_states,
}
use codex_autopilot.StateStore.{is_named}

-- Every observation is of a named token and says "active" or "unknown".
abbrev pub says_alive : String × String → Bool
says_alive entry = is_named entry.0 && (entry.1 == "active" || entry.1 == "unknown")

alive_checked : (m : Dict String) → All (λ e. says_alive e ≡ true) m → check_observations m ≡ ok tt
unfolding check_observations
alive_checked [] h = refl
alive_checked ((token, observed) ∷ m) h =
    let named : (is_named token && elem observed authoritative_worker_states) ≡ true = ground (
      arith,
      h.0,
      eq_iff observed "active",
      eq_iff "active" observed,
      eq_iff observed "unknown",
      eq_iff "unknown" observed,
    ) in
    rw (named, alive_checked m h.1) refl

alive_observed :
    (m : Dict String) (token : String)
    → All (λ e. says_alive e ≡ true) m
    → (observed_of m token == "active" || observed_of m token == "unknown") ≡ true
unfolding lookup
alive_observed [] token h = refl
alive_observed ((key, observed) ∷ m) token h = ground (arith, alive_observed m token)

-- Nothing has happened but that tasks were listed as retained or unresolved.
pub record IsUntouched (s : RunState) (r : Reconciliation) : Type 0 where
  pub state_kept : r.state ≡ s
  pub none_retried : r.retried_task_ids ≡ []
  pub none_released : r.released_lock_ids ≡ []

module _ (host : Host) (observations : Dict String) (lock_ids : Dict String) (retry_after : ℕ)
    (at : String) (alive : All (λ e. says_alive e ≡ true) observations) where
  session_kept :
      (s : RunState) (r : Reconciliation) (token : String) (place : ℕ) (w : WorkerSession)
      → IsUntouched s r
      → (next : Reconciliation) × (reconcile_session host observations lock_ids retry_after at r
            token
            (place, w)
          ≡ ok next)
        × IsUntouched s next
  unfolding reconcile_session
  session_kept s r token place w u =
      let observed = observed_of observations token in
      elim (Bool-cases (observed == "active")) [
        | inl active ↦ (
          record r { retained_task_ids = r.retained_task_ids ++ w.task_id ∷ [] },
          rw active refl,
          record {
            state_kept = u.state_kept;
            none_retried = u.none_retried;
            none_released = u.none_released;
          },
        )
        | inr other ↦
            let unknown : (observed == "unknown") ≡ true =
              ground (arith, alive_observed observations token alive) in
            (
              record r { unresolved_task_ids = r.unresolved_task_ids ++ w.task_id ∷ [] },
              rw (other, unknown) refl,
              record {
                state_kept = u.state_kept;
                none_retried = u.none_retried;
                none_released = u.none_released;
              },
            )
      ]

  sessions_kept :
      (s : RunState) (r : Reconciliation) (m : Dict (ℕ × WorkerSession))
      → IsUntouched s r
      → (end : Reconciliation) × (reconcile_sessions host observations lock_ids retry_after at r m
          ≡ ok end)
        × IsUntouched s end
  unfolding reconcile_sessions
  sessions_kept s r [] u = (r, refl, u)
  sessions_kept s r ((token, (place, w)) ∷ m) u =
      let (next, step, v) = session_kept s r token place w u in
      let (end, steps, z) = sessions_kept s next m v in (end, rw (step, steps) refl, z)

-- If the state's task map is valid and every observation is of a named token and says active or
-- unknown, then the reconciliation succeeds, the state is left as it was, and no task is retried
-- and no lock released.
pub reconcile_running_work-silent :
    (host : Host) (plan : Plan) (s : RunState) (observations : Dict String) (now delay : ℕ)
    (at : String) {checked : Dict String}
    → All (λ e. says_alive e ≡ true) observations
    → validate_task_states plan s.task_states true ≡ ok checked
    → (r : Reconciliation) × (reconcile_running_work host plan s observations now delay at ≡ ok r)
      × IsUntouched s r
unfolding reconcile_running_work
reconcile_running_work-silent host plan s observations now delay at {checked} alive valid =
    let (end, steps, u) =
      sessions_kept host observations (lock_ids_by_token s.resource_locks []) (now + delay) at alive
        s (untouched s) (pending_from 0 s.worker_sessions [])
        (record { state_kept = refl; none_retried = refl; none_released = refl }) in
    let checks : validate_task_states plan end.state.task_states true ≡ ok checked =
      subst (λ t. validate_task_states plan t.task_states true ≡ ok checked) (sym u.state_kept)
        valid in
    (end, rw (alive_checked observations alive, steps, checks) refl, u)
