-- ===== src/Resilience/Running/Follows.antt =====
-- What no round of reconcile_running_work (src/codex_autopilot/resilience.py) undoes.
use codex_autopilot.Prelude.{
  ℕ, ◌≤◌, max, String, ◌≡◌, refl, sym, ◌∙◌, subst, ◌⊎◌, inl, inr, Bool, false, not, ◌&&◌, Option,
  none, some, List, [], ◌∷◌, arith, eq_iff, ◌==◌, ==_refl, Bool-cases, Option-cases, filter_by,
  elem, lookup, get_or, lookup-insert, ok, >>=-eq-ok, ensure-bind-eq-ok, elem-filter_by,
}
use codex_autopilot.TaskState.{value, retry_wait}
use codex_autopilot.RunState.{RunState, WorkerSession}
use codex_autopilot.Resources.{DurableResourceLock}
use codex_autopilot.Resources.Journal.{validate_persisted_resource_state}
use codex_autopilot.Resources.Normalize.{Host, strip, is_blank}
use codex_autopilot.Resources.Requests.{find_token}
use codex_autopilot.Resources.Locks.{release_resources_in_state, append_resource_event}
use codex_autopilot.Resources.Locks.Exclusive.{validate_persisted_sound}
use codex_autopilot.Resilience.{append_resilience_event}
use codex_autopilot.Resilience.Running.{retire_task, retire_engineer}

abbrev pub retry_at_of : RunState → String → ℕ
retry_at_of s k = get_or 0 (lookup k s.task_retry_at)

-- The second state came from the first by retiring workers: a task's state is what it was or
-- RETRY_WAIT, nothing becomes active, no deadline comes earlier, no lock is taken, and what counts
-- the work done is as it was.
abbrev pub IsKeptOrRetried : RunState → RunState → String → Type 0
IsKeptOrRetried s t k =
    (lookup k t.task_states ≡ lookup k s.task_states)
    ⊎ (lookup k t.task_states ≡ some (value retry_wait))

pub record Follows (s t : RunState) : Type 0 where
  pub states_kept : (k : String) → IsKeptOrRetried s t k
  pub idle_kept : (k : String) → elem k s.active_task_ids ≡ false → elem k t.active_task_ids ≡ false
  pub no_earlier : (k : String) → retry_at_of s k ≤ retry_at_of t k
  pub free_kept :
      (token : String)
      → find_token token s.resource_locks ≡ none
      → find_token token t.resource_locks ≡ none
  pub graph_kept : t.graph_version ≡ s.graph_version
  pub attempts_kept : t.task_attempts ≡ s.task_attempts
  pub revisions_kept : t.task_revisions ≡ s.task_revisions

pub Follows-refl : (s : RunState) → Follows s s
Follows-refl s = record {
  states_kept = λ k. inl refl;
  idle_kept = λ k h. h;
  no_earlier = λ k. omega arith;
  free_kept = λ token h. h;
  graph_kept = refl;
  attempts_kept = refl;
  revisions_kept = refl;
}

pub kept_trans :
    (s t u : RunState) (k : String)
    → IsKeptOrRetried s t k
    → IsKeptOrRetried t u k
    → IsKeptOrRetried s u k
kept_trans s t u k (inl a) (inl b) = inl (b ∙ a)
kept_trans s t u k (inr a) (inl b) = inr (b ∙ a)
kept_trans s t u k a (inr b) = inr b

pub Follows-trans : (s t u : RunState) → Follows s t → Follows t u → Follows s u
Follows-trans s t u f g = record {
  states_kept = λ k. kept_trans s t u k (f.states_kept k) (g.states_kept k);
  idle_kept = λ k h. g.idle_kept k (f.idle_kept k h);
  no_earlier = λ k. omega (arith, f.no_earlier k, g.no_earlier k);
  free_kept = λ token h. g.free_kept token (f.free_kept token h);
  graph_kept = g.graph_kept ∙ f.graph_kept;
  attempts_kept = g.attempts_kept ∙ f.attempts_kept;
  revisions_kept = g.revisions_kept ∙ f.revisions_kept;
}

find_token-filter :
    (keep : DurableResourceLock → Bool) (token : String) (ls : List DurableResourceLock)
    → find_token token ls ≡ none
    → find_token token (filter_by keep ls) ≡ none
unfolding find_token
find_token-filter keep token [] h = refl
find_token-filter keep token (l ∷ ls) h = ground (arith, find_token-filter keep token ls)

-- A release touches nothing but the locks and their journal.
pub release-Follows :
    (host : Host) (s : RunState) (raw reason now : String) {after : RunState} {released : Bool}
    → release_resources_in_state host s raw reason now ≡ ok (after, released)
    → Follows s after
unfolding release_resources_in_state append_resource_event
release-Follows host s raw reason now {after} {released} h =
    let token = strip raw in
    let (_, h₁) = ensure-bind-eq-ok (not (is_blank raw) && not (is_blank reason)) _ _ h in
    let (locks, valid, h₂) =
      >>=-eq-ok
        (validate_persisted_resource_state host.fnmatchcase host.casefold s.resource_locks
          s.resource_lock_journal s.resource_journal_sequence)
        _ h₁ in
    let (same, _) =
      validate_persisted_sound host s.resource_locks s.resource_lock_journal
        s.resource_journal_sequence valid in
    elim (Option-cases (find_token token locks)) [
      | inl absent ↦
          let unchanged : s ≡ after = cc (rw absent at h₂) in
          subst (Follows s) unchanged (Follows-refl s)
      | inr found ↦
          let keep = λ (l : DurableResourceLock). not (l.owner.ownership_token == token) in
          let kept : RunState = record s { resource_locks = filter_by keep locks } in
          let reached : append_resource_event kept found.0 "released" now (some (strip reason))
              ≡ after =
            cc (rw (found.1, append_resource_event) at h₂) in
          subst (Follows s) reached (record {
            states_kept = λ k. inl refl;
            idle_kept = λ k e. e;
            no_earlier = λ k. omega arith;
            free_kept = λ t e.
                find_token-filter keep t locks (subst (λ ls. find_token t ls ≡ none) (sym same) e);
            graph_kept = refl;
            attempts_kept = refl;
            revisions_kept = refl;
          })
    ]

pub elem-remove :
    (k j : String) (xs : List String)
    → elem k xs ≡ false
    → elem k (filter_by (λ i. not (i == j)) xs) ≡ false
elem-remove k j xs h = rw (elem-filter_by, h) refl

pub elem-removed :
    (k : String) (xs : List String) → elem k (filter_by (λ i. not (i == k)) xs) ≡ false
elem-removed k xs = ground (arith, elem-filter_by (λ i. not (i == k)) xs k, ==_refl k)

pub retire_task-Follows :
    (s : RunState) (place : ℕ) (w : WorkerSession) (observed : String) (retry_after : ℕ)
    → Follows s (retire_task s place w observed retry_after)
unfolding retire_task
retire_task-Follows s place w observed retry_after = record {
  states_kept = λ k. elim (Bool-cases (w.task_id == k)) [
    | inl same ↦ inr (rw (lookup-insert, same) refl)
    | inr other ↦ inl (rw (lookup-insert, other) refl)
  ];
  idle_kept = λ k h. elem-remove k w.task_id s.active_task_ids h;
  no_earlier = λ k.
      let late = max (get_or 0 (lookup w.task_id s.task_retry_at)) retry_after in
      elim (Bool-cases (w.task_id == k)) [
        | inl same ↦
            let is_k = (eq_iff w.task_id k).0 same in
            rw (lookup-insert, same)
              (subst (λ j. get_or 0 (lookup j s.task_retry_at) ≤ late) is_k (omega arith))
        | inr other ↦ rw (lookup-insert, other) (omega arith)
      ];
  free_kept = λ token h. h;
  graph_kept = refl;
  attempts_kept = refl;
  revisions_kept = refl;
}

pub retire_engineer-Follows :
    (s : RunState) (place : ℕ) (observed : String) → Follows s (retire_engineer s place observed)
unfolding retire_engineer
retire_engineer-Follows s place observed = record {
  states_kept = λ k. inl refl;
  idle_kept = λ k e. e;
  no_earlier = λ k. omega arith;
  free_kept = λ token e. e;
  graph_kept = refl;
  attempts_kept = refl;
  revisions_kept = refl;
}

pub event-Follows :
    (s : RunState) (event : String) (task_id : Option String) (change : Option ℕ)
    → Follows s (append_resilience_event s event task_id change)
unfolding append_resilience_event
event-Follows s event task_id change = record {
  states_kept = λ k. inl refl;
  idle_kept = λ k e. e;
  no_earlier = λ k. omega arith;
  free_kept = λ token e. e;
  graph_kept = refl;
  attempts_kept = refl;
  revisions_kept = refl;
}
