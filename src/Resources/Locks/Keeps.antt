-- ===== src/Resources/Locks/Keeps.antt =====
-- What an acquisition writes is accepted by the next validation.
use codex_autopilot.Prelude.{
  ℕ, suc, String, ◌≡◌, refl, sym, ap, ◌∙◌, subst, ◌⊎◌, inl, inr, true, not, ◌||◌, Option, none,
  some, List, [], ◌∷◌, map, nat_eq, ◌==◌, Bool-cases, Option-cases, any, All, elem, lookup, keys,
  ok, or_raise, >>=-eq-ok, or_raise-eq-ok, ensure-bind-eq-ok, is_empty,
}
use codex_autopilot.Plan.{Plan, Task, ResourceClaim, find_task}
use codex_autopilot.Plan.Ids.{All-find_task}
use codex_autopilot.RunState.{RunState}
use codex_autopilot.Resources.{NormalizedResourceClaim, LockOwner}
use codex_autopilot.Resources.Journal.{distinct}
use codex_autopilot.Resources.Journal.Appends.{IsNew}
use codex_autopilot.Resources.Normalize.{Host, normalize_claim, normalize_claims, has_nul}
use codex_autopilot.Resources.Requests.{
  AcquisitionResult, check_lock_owner, agrees, check_request, mode_or, find_token, lock_name,
  all_conflicts,
}
use codex_autopilot.Resources.Locks.{
  SlotChoice, not_needed, full, slot_at, choose_slot, grant_slot, take_new,
  acquire_resources_in_state,
}
use codex_autopilot.Resources.Locks.Accepted.{
  IsAccepted, validated, granted_state, validate-IsAccepted, accepted-validate, grant-IsAccepted,
}
use codex_autopilot.Resources.Locks.Acquire.{acquire_resources_in_state-IsExclusive, reuse-state}

check_request-found :
    (plan : Plan) (state : RunState) (task_id : String) (o : LockOwner) {task : Task}
    → check_request plan state task_id o ≡ ok task
    → find_task task_id plan.tasks ≡ some task
unfolding check_request
check_request-found plan state task_id o {task} h =
    let (t, found, h₁) = >>=-eq-ok (or_raise (find_task task_id plan.tasks) _) _ h in
    let (_, h₂) = ensure-bind-eq-ok (o.task_id == task_id) _ _ h₁ in
    let (_, _, h₃) = >>=-eq-ok (check_lock_owner o) _ h₂ in
    let (_, h₄) = ensure-bind-eq-ok (state.run_id == o.run_id) _ _ h₃ in
    let (_, h₅) = ensure-bind-eq-ok (nat_eq state.graph_version plan.graph_version) _ _ h₄ in
    let (_, h₆) =
      ensure-bind-eq-ok (is_empty state.task_states || elem o.task_id (keys state.task_states)) _ _
        h₅ in
    let (_, h₇) =
      ensure-bind-eq-ok (agrees (lookup o.task_id state.task_attempts) o.attempt) _ _ h₆ in
    let same : t ≡ task = cc h₇ in cc (or_raise-eq-ok (find_task task_id plan.tasks) _ found, same)

SlotChoice-cases : (c : SlotChoice) → (c ≡ not_needed) ⊎ (c ≡ full) ⊎ ((n : ℕ) × (c ≡ slot_at n))
SlotChoice-cases not_needed = inl refl
SlotChoice-cases full = inr (inl refl)
SlotChoice-cases (slot_at n) = inr (inr (n, refl))

module _ (host : Host) where
  -- An acquisition of a new bundle leaves the state, or grants.
  take_new_cases :
      (plan : Plan) (s : RunState) (o : LockOwner) (cs : List NormalizedResourceClaim)
      (mode now : String)
      → ((take_new host plan s o cs mode now).0 ≡ s)
        ⊎ ((slot : Option ℕ) × ((take_new host plan s o cs mode now).0
              ≡ granted_state host s o cs now slot))
  unfolding take_new grant_slot
  take_new_cases plan s o cs mode now =
      let conflicts = all_conflicts host cs s.resource_locks in
      elim (Bool-cases (any (λ l. l.owner.task_id == o.task_id) s.resource_locks)) [
        | inl busy ↦ inl (rw busy refl)
        | inr idle ↦ elim (Bool-cases (is_empty conflicts)) [
          | inr some_conflict ↦ inl (rw (idle, some_conflict) refl)
          | inl clear ↦ elim (SlotChoice-cases (choose_slot plan s mode)) [
            | inl needless ↦ inr (none, rw (idle, clear, needless) refl)
            | inr (inl taken) ↦ inl (rw (idle, clear, taken) refl)
            | inr (inr found) ↦ inr (some found.0, rw (idle, clear, found.1) refl)
          ]
        ]
      ]

  normalize_claims-ids :
      (root : String) (cs : List ResourceClaim) {ns : List NormalizedResourceClaim}
      → normalize_claims host root cs ≡ ok ns
      → map (λ c. c.id) ns ≡ map (λ c. c.id) cs
  unfolding normalize_claims normalize_claim
  normalize_claims-ids root [] {ns} h = let empty : ns ≡ [] = cc h in rw empty refl
  normalize_claims-ids root (c ∷ cs) h =
      let (first, read, h₁) = >>=-eq-ok (normalize_claim host root c) _ h in
      let (rest, read_rest, h₂) = >>=-eq-ok (normalize_claims host root cs) _ h₁ in
      let (_, made) = ensure-bind-eq-ok (not (has_nul c.target)) _ _ read in
      let same_id : c.id ≡ first.id = cc made in
      cc (h₂, same_id, normalize_claims-ids root cs read_rest)

  -- No claim id stands twice in a task's claims.
  abbrev pub HasDistinctClaims : Task → Type 0
  HasDistinctClaims t = distinct (map (λ c. c.id) t.resources) ≡ true

  requested_claims :
      (plan : Plan) (state : RunState) (task_id : String) (o : LockOwner) {task : Task}
      → All HasDistinctClaims plan.tasks
      → check_request plan state task_id o ≡ ok task
      → HasDistinctClaims task
  requested_claims plan state task_id o {task} claims h =
      let found = check_request-found plan state task_id o h in
      All-find_task HasDistinctClaims plan.tasks task_id claims found

  acquired-IsAccepted :
      (root : String) (plan : Plan) (state : RunState) (task_id : String) (o : LockOwner)
      (mode : Option String) (now : String) {after : RunState} {result : AcquisitionResult}
      → All HasDistinctClaims plan.tasks
      → All
          (IsNew (lock_name (suc state.resource_journal_sequence)) o.ownership_token)
          state.resource_lock_journal
      → acquire_resources_in_state host root plan state task_id o mode now ≡ ok (after, result)
      → IsAccepted host after
  unfolding acquire_resources_in_state
  acquired-IsAccepted root plan state task_id o mode now {after} {result} claims fresh h =
      let (task, requested, h₁) = >>=-eq-ok (check_request plan state task_id o) _ h in
      let m = mode_or mode task.execution_mode in
      let (_, h₂) = ensure-bind-eq-ok (m == "code" || m == "computer_use") _ _ h₁ in
      let (locks, valid, h₃) = >>=-eq-ok (validated host state) _ h₂ in
      let (cs, read, h₄) = >>=-eq-ok (normalize_claims host root task.resources) _ h₃ in
      let accepted = validate-IsAccepted host state valid in
      let distinct_claims : HasDistinctClaims task =
        requested_claims plan state task_id o claims requested in
      let once : distinct (map (λ c. c.id) cs) ≡ true =
        rw (normalize_claims-ids root task.resources read) distinct_claims in
      elim (Option-cases (find_token o.ownership_token locks)) [
        | inl unbound ↦
            let out : (after, result) ≡ take_new host plan state o cs m now =
              cc (rw unbound at h₄) in
            elim (take_new_cases plan state o cs m now) [
              | inl same ↦ subst (IsAccepted host) (sym (ap (λ r. r.0) out ∙ same)) accepted
              | inr given ↦
                  subst (IsAccepted host) (sym (ap (λ r. r.0) out ∙ given.1))
                    (grant-IsAccepted host state o cs now given.0 accepted fresh once)
            ]
        | inr bound ↦
            subst (IsAccepted host) (reuse-state host state bound.0 o cs (rw bound.1 at h₄))
              accepted
      ]

  -- If no task has a claim id twice, and the journal has no event with the token or with the id of
  -- the next lock, then the state that an acquisition returns, granted or refused, passes the next
  -- validation of the locks against the journal.
  pub acquire_resources_in_state_validates :
      (root : String) (plan : Plan) (state : RunState) (task_id : String) (o : LockOwner)
      (mode : Option String) (now : String) {after : RunState} {result : AcquisitionResult}
      → All HasDistinctClaims plan.tasks
      → All
          (IsNew (lock_name (suc state.resource_journal_sequence)) o.ownership_token)
          state.resource_lock_journal
      → acquire_resources_in_state host root plan state task_id o mode now ≡ ok (after, result)
      → validated host after ≡ ok after.resource_locks
  acquire_resources_in_state_validates root plan state task_id o mode now {after} claims fresh h =
      accepted-validate host after
        (acquire_resources_in_state-IsExclusive host root plan state task_id o mode now h)
        (acquired-IsAccepted root plan state task_id o mode now claims fresh h)
