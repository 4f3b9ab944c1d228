-- ===== src/Resources/Locks/Acquire.antt =====
-- An acquisition keeps the held locks exclusive.
use codex_autopilot.Prelude.{
  ℕ, ◌<◌, min, String, ◌≡◌, refl, sym, ap, ◌∙◌, subst, inl, inr, true, false, ◌&&◌, ◌||◌, Option,
  none, some, List, [], ◌∷◌, ◌++◌, arith, ◌==◌, Bool-cases, Option-cases, any, All, elem, ok,
  >>=-eq-ok, ensure-bind-eq-ok, is_empty, empty_of_is_empty, append_nil,
}
use codex_autopilot.Plan.{Plan}
use codex_autopilot.RunState.{RunState}
use codex_autopilot.Resources.{NormalizedResourceClaim, LockOwner, DurableResourceLock}
use codex_autopilot.Resources.Journal.{
  has_number, distinct_numbers, tokens, owner_tasks, slots, validate_persisted_resource_state,
}
use codex_autopilot.Resources.Normalize.{Host, normalize_claims}
use codex_autopilot.Resources.Locks.Joining.{IsApart, locks-IsApart, none_each, join-IsExclusive}
use codex_autopilot.Resources.Locks.Exclusive.{
  IsExclusive, validate_persisted_sound, distinct_numbers-snoc, slots-snoc, elem-owner_tasks,
  find_token-none, free_slot_lem,
}
use codex_autopilot.Resources.Locks.{
  free_slot, SlotChoice, not_needed, full, slot_at, choose_slot, append_resource_event, new_lock,
  grant, grant_slot, reuse, take_new, acquire_resources_in_state,
}
use codex_autopilot.Resources.Requests.{
  AcquisitionResult, check_request, mode_or, find_token, all_conflicts, same_owner, same_claims,
}

module _ (host : Host) where
  abbrev pub locks_of : RunState × AcquisitionResult → List DurableResourceLock
  locks_of r = r.0.resource_locks

  grant-locks :
      (state : RunState) (o : LockOwner) (cs : List NormalizedResourceClaim) (now : String)
      (slot : Option ℕ)
      → locks_of (grant state o cs now slot)
        ≡ state.resource_locks ++ new_lock state o cs now slot ∷ []
  unfolding grant append_resource_event
  grant-locks state o cs now slot = refl

  -- What the checks of `take_new` establish before a lock is granted.
  record IsClear (state : RunState) (o : LockOwner) (cs : List NormalizedResourceClaim)
      : Type 0 where
    exclusive : IsExclusive host state.resource_locks
    token_new : elem o.ownership_token (tokens state.resource_locks) ≡ false
    task_new : elem o.task_id (owner_tasks state.resource_locks) ≡ false
    free : All (IsApart host cs) state.resource_locks

  module _ (plan : Plan) (state : RunState) (o : LockOwner) (cs : List NormalizedResourceClaim)
      (now : String) where
    grant-IsExclusive :
        (slot : Option ℕ)
        → IsClear state o cs
        → distinct_numbers (slots (state.resource_locks ++ new_lock state o cs now slot ∷ []))
          ≡ true
        → IsExclusive host (locks_of (grant state o cs now slot))
    grant-IsExclusive slot clear slot_new = rw (grant-locks state o cs now slot) (
        join-IsExclusive host state.resource_locks (new_lock state o cs now slot) clear.exclusive
          (record {
            token_new = clear.token_new;
            task_new = clear.task_new;
            free = clear.free;
            slot_new = slot_new;
          }))

    no_slot :
        IsExclusive host state.resource_locks
        → distinct_numbers (slots (state.resource_locks ++ new_lock state o cs now none ∷ []))
          ≡ true
    no_slot ex =
        rw
          (
            slots-snoc state.resource_locks (new_lock state o cs now none),
            append_nil (slots state.resource_locks),
          )
          ex.one_per_slot

    new_slot :
        (n : ℕ)
        → IsExclusive host state.resource_locks
        → has_number n (slots state.resource_locks) ≡ false
        → distinct_numbers (slots (state.resource_locks ++ new_lock state o cs now (some n) ∷ []))
          ≡ true
    new_slot n ex open_slot =
        rw (slots-snoc state.resource_locks (new_lock state o cs now (some n)))
          (distinct_numbers-snoc (slots state.resource_locks) n ex.one_per_slot open_slot)

    -- A chosen slot is not held, and it is below the plan's and the state's number of slots.
    pub choose_slot_lem :
        (mode : String) {n : ℕ}
        → choose_slot plan state mode ≡ slot_at n
        → (has_number n (slots state.resource_locks) ≡ false)
          × (n < min plan.computer_use_slots state.computer_use_slots)
    unfolding choose_slot
    choose_slot_lem mode {n} h =
        let limit = min plan.computer_use_slots state.computer_use_slots in
        elim (Bool-cases (mode == "computer_use")) [
          | inl needs ↦ elim (Option-cases (free_slot limit 0 (slots state.resource_locks))) [
            | inl stuck ↦ absurd (cc (rw (needs, stuck) at h))
            | inr found ↦
                let (open_slot, below) =
                  free_slot_lem limit 0 (slots state.resource_locks) {n = found.0} found.1 in
                let same : found.0 ≡ n = cc (rw (needs, found.1) at h) in
                (
                  subst (λ m. has_number m (slots state.resource_locks) ≡ false) same open_slot,
                  omega (arith, below, same),
                )
          ]
          | inr code ↦ absurd (cc (rw code at h))
        ]

    grant_slot-IsExclusive :
        (mode : String) (choice : SlotChoice)
        → choose_slot plan state mode ≡ choice
        → IsClear state o cs
        → IsExclusive host (locks_of (grant_slot state o cs now choice))
    unfolding grant_slot
    grant_slot-IsExclusive mode not_needed h clear =
        grant-IsExclusive none clear (no_slot clear.exclusive)
    grant_slot-IsExclusive mode full h clear = clear.exclusive
    grant_slot-IsExclusive mode (slot_at n) h clear =
        grant-IsExclusive (some n) clear (new_slot n clear.exclusive (choose_slot_lem mode h).0)

    take_new-IsExclusive :
        (mode : String)
        → IsExclusive host state.resource_locks
        → find_token o.ownership_token state.resource_locks ≡ none
        → IsExclusive host (locks_of (take_new host plan state o cs mode now))
    unfolding take_new
    take_new-IsExclusive mode ex unbound =
        let conflicts = all_conflicts host cs state.resource_locks in
        elim (Bool-cases (any (λ l. l.owner.task_id == o.task_id) state.resource_locks)) [
          | inl busy ↦ rw busy ex
          | inr idle ↦ elim (Bool-cases (is_empty conflicts)) [
            | inr some_conflict ↦ rw (idle, some_conflict) ex
            | inl clear ↦
                rw (idle, clear)
                  (grant_slot-IsExclusive mode (choose_slot plan state mode) refl (record {
                    exclusive = ex;
                    token_new = find_token-none o.ownership_token state.resource_locks unbound;
                    task_new = sym (elem-owner_tasks o.task_id state.resource_locks) ∙ idle;
                    free = locks-IsApart host cs state.resource_locks (
                        none_each host cs state.resource_locks (empty_of_is_empty conflicts clear));
                  }))
          ]
        ]

  pub reuse-state :
      (state : RunState) (l : DurableResourceLock) (o : LockOwner)
      (cs : List NormalizedResourceClaim) {r : RunState × AcquisitionResult}
      → reuse state l o cs ≡ ok r
      → state ≡ r.0
  unfolding reuse
  reuse-state state l o cs h =
      let (_, h') = ensure-bind-eq-ok (same_owner l.owner o && same_claims l.claims cs) _ _ h in
      cc h'

  -- After an acquisition that returns, granted or refused, no two held locks conflict, and no two
  -- have the same task, token or Computer Use slot.
  pub acquire_resources_in_state-IsExclusive :
      (root : String) (plan : Plan) (state : RunState) (task_id : String) (o : LockOwner)
      (mode : Option String) (now : String) {after : RunState} {result : AcquisitionResult}
      → acquire_resources_in_state host root plan state task_id o mode now ≡ ok (after, result)
      → IsExclusive host after.resource_locks
  unfolding acquire_resources_in_state
  acquire_resources_in_state-IsExclusive root plan state task_id o mode now {after} {result} h =
      let (task, _, h₁) = >>=-eq-ok (check_request plan state task_id o) _ h in
      let m = mode_or mode task.execution_mode in
      let (_, h₂) = ensure-bind-eq-ok (m == "code" || m == "computer_use") _ _ h₁ in
      let (locks, valid, h₃) =
        >>=-eq-ok
          (validate_persisted_resource_state host.fnmatchcase host.casefold state.resource_locks
            state.resource_lock_journal state.resource_journal_sequence)
          _ h₂ in
      let (cs, _, h₄) = >>=-eq-ok (normalize_claims host root task.resources) _ h₃ in
      let (same, ex) =
        validate_persisted_sound host state.resource_locks state.resource_lock_journal
          state.resource_journal_sequence valid in
      elim (Option-cases (find_token o.ownership_token locks)) [
        | inl unbound ↦
            let out : (after, result) ≡ take_new host plan state o cs m now =
              cc (rw unbound at h₄) in
            rw (ap locks_of out) (
              take_new-IsExclusive plan state o cs now m ex
                (subst (λ ls. find_token o.ownership_token ls ≡ none) same unbound))
        | inr bound ↦
            let unchanged = reuse-state state bound.0 o cs (rw bound.1 at h₄) in
            subst (λ s. IsExclusive host s.resource_locks) unchanged ex
      ]
