-- ===== src/Resources/Locks/Release.antt =====
-- A release takes the token's lock away and keeps the others exclusive.
use codex_autopilot.Prelude.{
  ℕ, String, ◌≡◌, refl, subst, inl, inr, Bool, true, false, not, ◌&&◌, ◌||◌, Option, none, some,
  List, [], ◌∷◌, arith, ◌==◌, Bool-cases, Option-cases, filter_by, all, elem, ok, >>=-eq-ok,
  ensure-bind-eq-ok,
}
use codex_autopilot.RunState.{RunState}
use codex_autopilot.Resources.{DurableResourceLock}
use codex_autopilot.Resources.Conflicts.{bundles_conflict, all_apart}
use codex_autopilot.Resources.Journal.{
  distinct, has_number, distinct_numbers, tokens, owner_tasks, with_slot, slots,
  validate_persisted_resource_state,
}
use codex_autopilot.Resources.Normalize.{Host, strip, is_blank}
use codex_autopilot.Resources.Locks.Exclusive.{IsExclusive, validate_persisted_sound}
use codex_autopilot.Resources.Locks.{append_resource_event, release_resources_in_state}
use codex_autopilot.Resources.Requests.{find_token}

module _ (keep : DurableResourceLock → Bool) where
  pub all-filter_by :
      (p : DurableResourceLock → Bool) (ls : List DurableResourceLock)
      → all p ls ≡ true
      → all p (filter_by keep ls) ≡ true
  all-filter_by p [] h = refl
  all-filter_by p (l ∷ ls) h = ground (arith, all-filter_by p ls)

  tasks-filter_by :
      (k : String) (ls : List DurableResourceLock)
      → elem k (owner_tasks ls) ≡ false
      → elem k (owner_tasks (filter_by keep ls)) ≡ false
  tasks-filter_by k [] h = refl
  tasks-filter_by k (l ∷ ls) h = ground (arith, tasks-filter_by k ls)

  tokens-filter_by :
      (k : String) (ls : List DurableResourceLock)
      → elem k (tokens ls) ≡ false
      → elem k (tokens (filter_by keep ls)) ≡ false
  tokens-filter_by k [] h = refl
  tokens-filter_by k (l ∷ ls) h = ground (arith, tokens-filter_by k ls)

  one_per_task-filter_by :
      (ls : List DurableResourceLock)
      → distinct (owner_tasks ls) ≡ true
      → distinct (owner_tasks (filter_by keep ls)) ≡ true
  one_per_task-filter_by [] h = refl
  one_per_task-filter_by (l ∷ ls) h =
      ground (arith, one_per_task-filter_by ls, tasks-filter_by l.owner.task_id ls)

  one_per_token-filter_by :
      (ls : List DurableResourceLock)
      → distinct (tokens ls) ≡ true
      → distinct (tokens (filter_by keep ls)) ≡ true
  one_per_token-filter_by [] h = refl
  one_per_token-filter_by (l ∷ ls) h =
      ground (arith, one_per_token-filter_by ls, tokens-filter_by l.owner.ownership_token ls)

  with_slot-has :
      (n : ℕ) (o : Option ℕ) (rest : List ℕ)
      → has_number n (with_slot o rest) ≡ (has_number n (with_slot o []) || has_number n rest)
  with_slot-has n none rest = refl
  with_slot-has n (some m) rest = ground arith

  slot-filter_by :
      (n : ℕ) (ls : List DurableResourceLock)
      → has_number n (slots ls) ≡ false
      → has_number n (slots (filter_by keep ls)) ≡ false
  slot-filter_by n [] h = refl
  slot-filter_by n (l ∷ ls) h = ground (
    arith,
    slot-filter_by n ls,
    with_slot-has n l.computer_use_slot (slots ls),
    with_slot-has n l.computer_use_slot (slots (filter_by keep ls)),
  )

  with_slot-once :
      (o : Option ℕ) (rest some_rest : List ℕ)
      → ((n : ℕ) → has_number n rest ≡ false → has_number n some_rest ≡ false)
      → (distinct_numbers rest ≡ true → distinct_numbers some_rest ≡ true)
      → distinct_numbers (with_slot o rest) ≡ true
      → distinct_numbers (with_slot o some_rest) ≡ true
  with_slot-once none rest some_rest f g h = g h
  with_slot-once (some n) rest some_rest f g h = ground (arith, f n, g)

  with_slot-tail :
      (o : Option ℕ) (rest : List ℕ)
      → distinct_numbers (with_slot o rest) ≡ true
      → distinct_numbers rest ≡ true
  with_slot-tail none rest h = h
  with_slot-tail (some n) rest h = ground arith

  one_per_slot-filter_by :
      (ls : List DurableResourceLock)
      → distinct_numbers (slots ls) ≡ true
      → distinct_numbers (slots (filter_by keep ls)) ≡ true
  one_per_slot-filter_by [] h = refl
  one_per_slot-filter_by (l ∷ ls) h = elim (Bool-cases (keep l)) [
    | inl kept ↦ rw kept (
        with_slot-once l.computer_use_slot (slots ls) (slots (filter_by keep ls))
          (λ n. slot-filter_by n ls) (one_per_slot-filter_by ls) h)
    | inr dropped ↦
        rw dropped (one_per_slot-filter_by ls (with_slot-tail l.computer_use_slot (slots ls) h))
  ]

  module _ (host : Host) where
    all_apart-filter_by :
        (ls : List DurableResourceLock)
        → all_apart host.fnmatchcase host.casefold ls ≡ true
        → all_apart host.fnmatchcase host.casefold (filter_by keep ls) ≡ true
    unfolding all_apart
    all_apart-filter_by [] h = refl
    all_apart-filter_by (l ∷ ls) h = ground (
      arith,
      all_apart-filter_by ls,
      all-filter_by (λ o. not (bundles_conflict host.fnmatchcase host.casefold l.claims o.claims))
          ls,
    )

    pub filter_by-IsExclusive :
        (ls : List DurableResourceLock) → IsExclusive host ls → IsExclusive host (filter_by keep ls)
    filter_by-IsExclusive ls ex = record {
      apart = all_apart-filter_by ls ex.apart;
      one_per_task = one_per_task-filter_by ls ex.one_per_task;
      one_per_token = one_per_token-filter_by ls ex.one_per_token;
      one_per_slot = one_per_slot-filter_by ls ex.one_per_slot;
    }

-- What a release leaves: exclusive locks, none with the token.
pub record IsReleased (host : Host) (token : String) (locks : List DurableResourceLock)
    : Type 0 where
  pub exclusive : IsExclusive host locks
  pub gone : find_token token locks ≡ none

find_token-filter_by :
    (token : String) (ls : List DurableResourceLock)
    → find_token token (filter_by (λ l. not (l.owner.ownership_token == token)) ls) ≡ none
unfolding find_token
find_token-filter_by token [] = refl
find_token-filter_by token (l ∷ ls) = ground (arith, find_token-filter_by token ls)

-- After a release that returns, the token, stripped of blanks, holds no lock, and no two of the
-- locks that are left conflict or share a task, a token or a Computer Use slot.
pub release_resources_in_state-IsReleased :
    (host : Host) (state : RunState) (token reason now : String) {after : RunState}
    {released : Bool}
    → release_resources_in_state host state token reason now ≡ ok (after, released)
    → IsReleased host (strip token) after.resource_locks
unfolding release_resources_in_state append_resource_event
release_resources_in_state-IsReleased host state raw reason now {after} {released} h =
    let token = strip raw in
    let (_, h₁) = ensure-bind-eq-ok (not (is_blank raw) && not (is_blank reason)) _ _ h in
    let (locks, valid, h₂) =
      >>=-eq-ok
        (validate_persisted_resource_state host.fnmatchcase host.casefold state.resource_locks
          state.resource_lock_journal state.resource_journal_sequence)
        _ h₁ in
    let (same, ex) =
      validate_persisted_sound host state.resource_locks state.resource_lock_journal
        state.resource_journal_sequence valid in
    elim (Option-cases (find_token token locks)) [
      | inl absent ↦
          let unchanged : state ≡ after = cc (rw absent at h₂) in
          subst (λ s. IsReleased host token s.resource_locks) unchanged
            (record { exclusive = ex; gone = subst (λ ls. find_token token ls ≡ none) same absent })
      | inr found ↦
          let keep = λ (l : DurableResourceLock). not (l.owner.ownership_token == token) in
          let left : after.resource_locks ≡ filter_by keep locks =
            cc (rw (found.1, append_resource_event) at h₂) in
          rw (left, same)
            (record {
              exclusive = filter_by-IsExclusive keep host state.resource_locks ex;
              gone = find_token-filter_by token state.resource_locks;
            })
    ]
