-- ===== src/Resources/Locks/Accepted.antt =====
-- A state that the validation accepts, and that a granted lock leaves acceptable.
use codex_autopilot.Prelude.{
  ℕ, suc, String, ◌≡◌, refl, ◌∙◌, Bool, true, ◌&&◌, Option, none, List, [], ◌∷◌, ◌++◌, map, arith,
  leb, nat_eq, length, all, All, insert, Result, ok, >>=-eq-ok, ensure-bind-eq-ok, length-append,
}
use codex_autopilot.RunState.{RunState}
use codex_autopilot.Resources.{NormalizedResourceClaim, LockOwner, DurableResourceLock, LockEvent}
use codex_autopilot.Resources.Journal.{
  distinct, distinct_numbers, tokens, owner_tasks, slots, lock_ids, claim_ids_of, Replay, start,
  replay_acquired, replay_event, replay, counts_from, same_map, held_map, held_by_lock, check_locks,
  validate_persisted_resource_state,
}
use codex_autopilot.Resources.Journal.Appends.{
  replay-snoc, counts_from-snoc, IsNew, IsUnknown, replay-IsUnknown, unknown-lookup,
}
use codex_autopilot.Resources.Journal.Inclusion.{join_lem}
use codex_autopilot.Resources.Normalize.{Host}
use codex_autopilot.Resources.Requests.{agrees, lock_name}
use codex_autopilot.Resources.Locks.{append_resource_event, new_lock, grant}
use codex_autopilot.Resources.Locks.Exclusive.{IsExclusive, distinct-snoc}

pub leb_one-suc : (n : ℕ) → leb 1 (suc n) ≡ true
leb_one-suc n = ground arith

lock_ids-snoc :
    (ls : List DurableResourceLock) (l : DurableResourceLock)
    → lock_ids (ls ++ l ∷ []) ≡ lock_ids ls ++ l.lock_id ∷ []
lock_ids-snoc [] l = refl
lock_ids-snoc (k ∷ ls) l = rw (lock_ids-snoc ls l) refl

all-snoc :
    (p : DurableResourceLock → Bool) (ls : List DurableResourceLock) (l : DurableResourceLock)
    → all p ls ≡ true
    → p l ≡ true
    → all p (ls ++ l ∷ []) ≡ true
all-snoc p [] l h last = ground arith
all-snoc p (k ∷ ls) l h last = ground (arith, all-snoc p ls l)

pub counted_after :
    (es : List LockEvent) (n : ℕ) (e : LockEvent)
    → (counts_from 1 es && nat_eq (length es) n) ≡ true
    → e.sequence ≡ suc n
    → (counts_from 1 (es ++ e ∷ []) && nat_eq (length (es ++ e ∷ [])) (suc n)) ≡ true
counted_after es n e h last =
    let long : length es ≡ n = ground (arith, h) in
    let counts : counts_from 1 (es ++ e ∷ []) ≡ true =
      counts_from-snoc 1 es e (ground (arith, h)) (omega (arith, last, long)) in
    let longer : length (es ++ e ∷ []) ≡ suc n = omega (arith, length-append es (e ∷ []), long) in
    ground (arith, counts, longer)

module _ (host : Host) where
  abbrev pub validated : RunState → Result (List DurableResourceLock)
  validated s =
      validate_persisted_resource_state host.fnmatchcase host.casefold s.resource_locks
        s.resource_lock_journal s.resource_journal_sequence

  abbrev pub named_once : DurableResourceLock → Bool
  named_once l = distinct (claim_ids_of l)

  -- What a state that passes the validation satisfies.
  pub record IsAccepted (s : RunState) : Type 0 where
    pub ids_once : distinct (lock_ids s.resource_locks) ≡ true
    pub claims_once : all named_once s.resource_locks ≡ true
    pub end : Replay
    pub replayed : replay start s.resource_lock_journal ≡ ok end
    pub counted :
        (counts_from 1 s.resource_lock_journal
          && nat_eq (length s.resource_lock_journal) s.resource_journal_sequence)
        ≡ true
    pub agrees : same_map end.replayed (held_map s.resource_locks) ≡ true

  pub validate-IsAccepted :
      (s : RunState) {out : List DurableResourceLock} → validated s ≡ ok out → IsAccepted s
  unfolding validate_persisted_resource_state check_locks
  validate-IsAccepted s h =
      let locks = s.resource_locks in
      let (_, checked, h₁) = >>=-eq-ok (check_locks host.fnmatchcase host.casefold locks) _ h in
      let (end, replayed, h₂) = >>=-eq-ok (replay start s.resource_lock_journal) _ h₁ in
      let (counted, h₃) =
        ensure-bind-eq-ok
          (counts_from 1 s.resource_lock_journal
            && nat_eq (length s.resource_lock_journal) s.resource_journal_sequence)
          _ _ h₂ in
      let (agrees, _) = ensure-bind-eq-ok (same_map end.replayed (held_map locks)) _ _ h₃ in
      let (ids_once, c₁) = ensure-bind-eq-ok (distinct (lock_ids locks)) _ _ checked in
      let (_, c₂) = ensure-bind-eq-ok (distinct (tokens locks)) _ _ c₁ in
      let (_, c₃) = ensure-bind-eq-ok (distinct (owner_tasks locks)) _ _ c₂ in
      let (_, c₄) = ensure-bind-eq-ok (distinct_numbers (slots locks)) _ _ c₃ in
      let (claims_once, _) = ensure-bind-eq-ok (all named_once locks) _ _ c₄ in
      record {
        ids_once = ids_once;
        claims_once = claims_once;
        end = end;
        replayed = replayed;
        counted = counted;
        agrees = agrees;
      }

  pub accepted-validate :
      (s : RunState)
      → IsExclusive host s.resource_locks
      → IsAccepted s
      → validated s ≡ ok s.resource_locks
  unfolding validate_persisted_resource_state check_locks
  accepted-validate s ex a =
      rw
        (
          a.ids_once, ex.one_per_token, ex.one_per_task, ex.one_per_slot, a.claims_once, ex.apart,
          a.replayed, a.counted, a.agrees,
        )
        refl

  abbrev pub granted_state :
      RunState → LockOwner → List NormalizedResourceClaim → String → Option ℕ → RunState
  granted_state s o cs now slot = (grant s o cs now slot).0

  new_event : RunState → DurableResourceLock → String → LockEvent
  new_event s l now = record {
    sequence = suc s.resource_journal_sequence;
    event = "acquired";
    lock_id = l.lock_id;
    ownership_token = l.owner.ownership_token;
    task_id = l.owner.task_id;
    at = now;
    claim_ids = claim_ids_of l;
    computer_use_slot = l.computer_use_slot;
    reason = none;
  }

  pub grant-IsAccepted :
      (s : RunState) (o : LockOwner) (cs : List NormalizedResourceClaim) (now : String)
      (slot : Option ℕ)
      → IsAccepted s
      → All
          (IsNew (lock_name (suc s.resource_journal_sequence)) o.ownership_token)
          s.resource_lock_journal
      → distinct (map (λ c. c.id) cs) ≡ true
      → IsAccepted (granted_state s o cs now slot)
  unfolding grant append_resource_event new_event replay_event replay_acquired
  grant-IsAccepted s o cs now slot a fresh once =
      let l = new_lock s o cs now slot in
      let e = new_event s l now in
      let none_yet : IsUnknown l.lock_id o.ownership_token start = record {
        no_id = refl;
        no_token = refl;
        keys_acquired = tt;
      } in
      let unknown =
        replay-IsUnknown l.lock_id o.ownership_token start s.resource_lock_journal fresh none_yet
          a.replayed in
      let joins =
        join_lem a.end.replayed s.resource_locks l
          (unknown-lookup l.lock_id o.ownership_token a.end unknown) a.agrees in
      record {
        ids_once =
            rw (lock_ids-snoc s.resource_locks l)
              (distinct-snoc (lock_ids s.resource_locks) l.lock_id a.ids_once joins.id_free);
        claims_once = all-snoc named_once s.resource_locks l a.claims_once once;
        end = record {
          acquired_lock_ids = l.lock_id ∷ a.end.acquired_lock_ids;
          acquired_owner_tokens = o.ownership_token ∷ a.end.acquired_owner_tokens;
          replayed = insert l.lock_id (held_by_lock l) a.end.replayed;
        };
        replayed =
            replay-snoc start s.resource_lock_journal e a.replayed
            ∙ rw (leb_one-suc s.resource_journal_sequence, once, unknown.no_id, unknown.no_token)
                refl;
        counted =
            counted_after s.resource_lock_journal s.resource_journal_sequence e a.counted refl;
        agrees = joins.agrees;
      }
