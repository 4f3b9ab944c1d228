-- ===== src/Resilience/Running/Retires.antt =====
-- The workers that are gone are retired, and nothing else happens (reconcile_running_work of
-- src/codex_autopilot/resilience.py).
use codex_autopilot.Prelude.{
  ℕ, ◌+◌, ◌≤◌, String, ◌≡◌, sym, ◌∙◌, subst, inl, inr, Bool, true, false, not, ◌&&◌, none, some, [],
  ◌∷◌, arith, eq_iff, ◌==◌, Bool-cases, elem, Dict, lookup, lookup-insert_self, ok, >>=-eq-ok,
}
use codex_autopilot.Plan.{Plan}
use codex_autopilot.TaskState.{value, retry_wait, validate_task_states}
use codex_autopilot.RunState.{RunState, WorkerSession}
use codex_autopilot.Resources.Normalize.{Host, strip}
use codex_autopilot.Resources.Requests.{find_token}
use codex_autopilot.Resources.Locks.{release_resources_in_state}
use codex_autopilot.Resources.Locks.Release.{release_resources_in_state-IsReleased}
use codex_autopilot.Resilience.{append_resilience_event}
use codex_autopilot.Resilience.Running.{
  Reconciliation, check_observations, pending_from, lock_ids_by_token, retire_task, retire_engineer,
  check_retirable, observed_of, on_call, release_reason, reconcile_engineer, reconcile_worker,
  reconcile_session, reconcile_sessions, untouched, reconcile_running_work,
}
use codex_autopilot.Resilience.Running.Follows.{
  retry_at_of, Follows, Follows-refl, Follows-trans, release-Follows, elem-removed,
  retire_task-Follows, retire_engineer-Follows, event-Follows,
}

-- A task that waits for a retry: in no active list, due no earlier than `after`, its token's locks free.
pub record IsRetired (after : ℕ) (task_id token : String) (t : RunState) : Type 0 where
  pub waits : lookup task_id t.task_states ≡ some (value retry_wait)
  pub idle : elem task_id t.active_task_ids ≡ false
  pub due : after ≤ retry_at_of t task_id
  pub free : find_token (strip token) t.resource_locks ≡ none

IsRetired-later :
    (after : ℕ) (task_id token : String) (t u : RunState)
    → IsRetired after task_id token t
    → Follows t u
    → IsRetired after task_id token u
IsRetired-later after task_id token t u h f = record {
  waits = elim (f.states_kept task_id) [ inl same ↦ same ∙ h.waits | inr again ↦ again ];
  idle = f.idle_kept task_id h.idle;
  due = omega (arith, h.due, f.no_earlier task_id);
  free = f.free_kept (strip token) h.free;
}

-- A worker is gone when it is said to be neither active nor unknown.
abbrev pub is_gone : Dict String → String → WorkerSession → Bool
is_gone observations token w =
    let observed = observed_of observations token in
    not (observed == "active") && not (observed == "unknown") && not (on_call w)

module _ (host : Host) (observations : Dict String) (lock_ids : Dict String) (retry_after : ℕ)
    (at : String) where
  engineer-Follows :
      (r : Reconciliation) (token : String) (place : ℕ) (observed : String) {next : Reconciliation}
      → reconcile_engineer host observations lock_ids retry_after at r token place observed
        ≡ ok next
      → Follows r.state next.state
  unfolding reconcile_engineer
  engineer-Follows r token place observed {next} h =
      let gone = retire_engineer r.state place observed in
      let (release, freed, h₁) =
        >>=-eq-ok (release_resources_in_state host gone token (release_reason observed) at) _ h in
      let reached : release.0 ≡ next.state = cc h₁ in
      subst (Follows r.state) reached (
        Follows-trans r.state gone release.0 (retire_engineer-Follows r.state place observed)
          (release-Follows host gone token (release_reason observed) at freed))

  worker_steps :
      (r : Reconciliation) (token : String) (place : ℕ) (w : WorkerSession) (observed : String)
      {next : Reconciliation}
      → reconcile_worker host observations lock_ids retry_after at r token place w observed
        ≡ ok next
      → Follows r.state next.state × IsRetired retry_after w.task_id token next.state
  unfolding reconcile_worker retire_task append_resilience_event
  worker_steps r token place w observed {next} h =
      let reason = release_reason observed in
      let gone = retire_task r.state place w observed retry_after in
      let (_, _, h₁) = >>=-eq-ok (check_retirable r.state w) _ h in
      let (release, freed, h₂) =
        >>=-eq-ok (release_resources_in_state host gone token reason at) _ h₁ in
      let told =
        append_resilience_event release.0 "worker_crash_reconciled" (some w.task_id) none in
      let reached : told ≡ next.state = cc h₂ in
      let by_release = release-Follows host gone token reason at freed in
      let by_event = event-Follows release.0 "worker_crash_reconciled" (some w.task_id) none in
      let due_when_gone : retry_after ≤ retry_at_of gone w.task_id =
        rw lookup-insert_self (omega arith) in
      let now : IsRetired retry_after w.task_id token release.0 = record {
        waits = elim (by_release.states_kept w.task_id) [
          | inl same ↦ same ∙ lookup-insert_self w.task_id (value retry_wait) r.state.task_states
          | inr again ↦ again
        ];
        idle = by_release.idle_kept w.task_id (elem-removed w.task_id r.state.active_task_ids);
        due = omega (arith, by_release.no_earlier w.task_id, due_when_gone);
        free = (release_resources_in_state-IsReleased host gone token reason at freed).gone;
      } in
      subst (λ t. Follows r.state t × IsRetired retry_after w.task_id token t) reached
        (
          Follows-trans r.state gone told (retire_task-Follows r.state place w observed retry_after)
              (Follows-trans gone release.0 told by_release by_event),
          IsRetired-later retry_after w.task_id token release.0 told now by_event,
        )

  session_steps :
      (r : Reconciliation) (token : String) (place : ℕ) (w : WorkerSession) {next : Reconciliation}
      → reconcile_session host observations lock_ids retry_after at r token (place, w) ≡ ok next
      → Follows r.state next.state
        × (is_gone observations token w ≡ true → IsRetired retry_after w.task_id token next.state)
  unfolding reconcile_session
  session_steps r token place w {next} h =
      let observed = observed_of observations token in
      elim (Bool-cases (observed == "active")) [
        | inl active ↦ (
          subst (Follows r.state) (cc (rw active at h)) (Follows-refl r.state),
          λ g. absurd (cc (rw active at g)),
        )
        | inr not_active ↦ elim (Bool-cases (observed == "unknown")) [
          | inl unknown ↦ (
            subst (Follows r.state) (cc (rw (not_active, unknown) at h)) (Follows-refl r.state),
            λ g. absurd (cc (rw (not_active, unknown) at g)),
          )
          | inr known ↦ elim (Bool-cases (on_call w)) [
            | inl engineer ↦ (
              engineer-Follows r token place observed (rw (not_active, known, engineer) at h),
              λ g. absurd (cc (rw (not_active, known, engineer) at g)),
            )
            | inr worker ↦
                let (follows, retired) =
                  worker_steps r token place w observed (rw (not_active, known, worker) at h) in
                (follows, λ g. retired)
          ]
        ]
      ]

  pub sessions_steps :
      (r : Reconciliation) (m : Dict (ℕ × WorkerSession)) {end : Reconciliation}
      → reconcile_sessions host observations lock_ids retry_after at r m ≡ ok end
      → Follows r.state end.state
        × ((token : String) (place : ℕ) (w : WorkerSession)
            → lookup token m ≡ some (place, w)
            → is_gone observations token w ≡ true
            → IsRetired retry_after w.task_id token end.state)
  unfolding reconcile_sessions lookup
  sessions_steps r [] {end} h = (
    let same : r ≡ end = cc h in
        subst (λ (e : Reconciliation). Follows r.state e.state) same (Follows-refl r.state),
    λ token place w found. absurd (cc found),
  )
  sessions_steps r ((key, (at_place, session)) ∷ m) {end} h =
      let (next, first, rest) =
        >>=-eq-ok
          (reconcile_session host observations lock_ids retry_after at r key (at_place, session)) _
          h in
      let (step, retires) = session_steps r key at_place session first in
      let (steps, retire) = sessions_steps next m rest in
      (
        Follows-trans r.state next.state end.state step steps,
        λ token place w found gone. elim (Bool-cases (key == token)) [
          | inl same ↦
              let is_token = (eq_iff key token).0 same in
              let is_session : session ≡ w = cc (rw same at found) in
              IsRetired-later retry_after w.task_id token next.state end.state
                (subst (λ k. IsRetired retry_after w.task_id k next.state) is_token
                  (subst (λ v. IsRetired retry_after v.task_id key next.state) is_session
                    (retires (
                      subst (λ v. is_gone observations key v ≡ true) (sym is_session)
                        (subst (λ k. is_gone observations k w ≡ true) (sym is_token) gone)))))
                steps
          | inr other ↦ retire token place w (rw other at found) gone
        ],
      )

-- What reconcile_running_work gives, and the rounds it is made of.
reconcile_rounds :
    (host : Host) (plan : Plan) (s : RunState) (observations : Dict String) (now delay : ℕ)
    (at : String) {r : Reconciliation}
    → reconcile_running_work host plan s observations now delay at ≡ ok r
    → reconcile_sessions host observations
        (lock_ids_by_token s.resource_locks [])
        (now + delay)
        at
        (untouched s)
        (pending_from 0 s.worker_sessions [])
      ≡ ok r
unfolding reconcile_running_work
reconcile_rounds host plan s observations now delay at {r} h =
    let (_, _, h₁) = >>=-eq-ok (check_observations observations) _ h in
    let (end, rounds, h₂) =
      >>=-eq-ok
        (reconcile_sessions host observations (lock_ids_by_token s.resource_locks []) (now + delay)
          at (untouched s) (pending_from 0 s.worker_sessions []))
        _ h₁ in
    let (_, _, h₃) = >>=-eq-ok (validate_task_states plan end.state.task_states true) _ h₂ in
    rounds ∙ h₃

-- If running work is reconciled, and a pending session of a worker that is not the engineer on call
-- is reported neither active nor unknown, then its task is in RETRY_WAIT, in no active list, and
-- due no earlier than the delay from now; and its token holds no lock.
pub reconcile_running_work-retires :
    (host : Host) (plan : Plan) (s : RunState) (observations : Dict String) (now delay : ℕ)
    (at : String) {r : Reconciliation} (token : String) (place : ℕ) (w : WorkerSession)
    → reconcile_running_work host plan s observations now delay at ≡ ok r
    → lookup token (pending_from 0 s.worker_sessions []) ≡ some (place, w)
    → is_gone observations token w ≡ true
    → IsRetired (now + delay) w.task_id token r.state
reconcile_running_work-retires host plan s observations now delay at {r} token place w h found
      gone =
    let rounds = reconcile_rounds host plan s observations now delay at h in
    (sessions_steps host observations (lock_ids_by_token s.resource_locks []) (now + delay) at
        (untouched s) (pending_from 0 s.worker_sessions []) rounds).1
      token place w found gone

-- If running work is reconciled, each task's state is what it was or RETRY_WAIT, no task becomes
-- active, no retry comes earlier, no token gets a lock, and the graph version, the attempts and the
-- revisions are as they were.
pub reconcile_running_work-Follows :
    (host : Host) (plan : Plan) (s : RunState) (observations : Dict String) (now delay : ℕ)
    (at : String) {r : Reconciliation}
    → reconcile_running_work host plan s observations now delay at ≡ ok r
    → Follows s r.state
reconcile_running_work-Follows host plan s observations now delay at {r} h =
    let rounds = reconcile_rounds host plan s observations now delay at h in
    (sessions_steps host observations (lock_ids_by_token s.resource_locks []) (now + delay) at
      (untouched s) (pending_from 0 s.worker_sessions []) rounds).0
