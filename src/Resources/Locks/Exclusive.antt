-- ===== src/Resources/Locks/Exclusive.antt =====
-- Held locks exclude each other, and acquisition and release keep it so.
use codex_autopilot.Prelude.{
  ℕ, zero, suc, ◌+◌, ◌<◌, String, ◌≡◌, refl, subst, inl, inr, true, false, ◌&&◌, ◌||◌, Option, none,
  some, List, [], ◌∷◌, ◌++◌, map, arith, eq_iff, nat_eq, ◌==◌, Bool-cases, length, any, all, elem,
  ok, >>=-eq-ok, ensure-eq-ok, ensure-bind-eq-ok, elem-append,
}
use codex_autopilot.Resources.{DurableResourceLock, LockEvent}
use codex_autopilot.Resources.Conflicts.{all_apart}
use codex_autopilot.Resources.Journal.{
  distinct, has_number, distinct_numbers, tokens, owner_tasks, with_slot, slots, check_locks,
  validate_persisted_resource_state, start, replay, lock_ids, counts_from, same_map, held_map,
}
use codex_autopilot.Resources.Normalize.{Host}
use codex_autopilot.Resources.Locks.{free_slot}
use codex_autopilot.Resources.Requests.{find_token}

-- No two locks conflict, and no two have the same task, the same token or the same Computer Use slot.
pub record IsExclusive (host : Host) (locks : List DurableResourceLock) : Type 0 where
  pub apart : all_apart host.fnmatchcase host.casefold locks ≡ true
  pub one_per_task : distinct (owner_tasks locks) ≡ true
  pub one_per_token : distinct (tokens locks) ≡ true
  pub one_per_slot : distinct_numbers (slots locks) ≡ true

module _ (host : Host) where
  pub check_locks-IsExclusive :
      (locks : List DurableResourceLock) {u : Unit {0}}
      → check_locks host.fnmatchcase host.casefold locks ≡ ok u
      → IsExclusive host locks
  unfolding check_locks
  check_locks-IsExclusive locks h =
      let (_, h₁) = ensure-bind-eq-ok (distinct (lock_ids locks)) _ _ h in
      let (tokens_once, h₂) = ensure-bind-eq-ok (distinct (tokens locks)) _ _ h₁ in
      let (tasks_once, h₃) = ensure-bind-eq-ok (distinct (owner_tasks locks)) _ _ h₂ in
      let (slots_once, h₄) = ensure-bind-eq-ok (distinct_numbers (slots locks)) _ _ h₃ in
      let (_, h₅) =
        ensure-bind-eq-ok (all (λ l. distinct (map (λ c. c.id) l.claims)) locks) _ _ h₄ in
      record {
        apart = ensure-eq-ok _ _ h₅;
        one_per_task = tasks_once;
        one_per_token = tokens_once;
        one_per_slot = slots_once;
      }

  -- What a validation that passes returns, and what it found.
  pub validate_persisted_sound :
      (locks : List DurableResourceLock) (journal : List LockEvent) (n : ℕ)
      {out : List DurableResourceLock}
      → validate_persisted_resource_state host.fnmatchcase host.casefold locks journal n ≡ ok out
      → (out ≡ locks) × IsExclusive host locks
  unfolding validate_persisted_resource_state
  validate_persisted_sound locks journal n h =
      let (_, checked, h₁) = >>=-eq-ok (check_locks host.fnmatchcase host.casefold locks) _ h in
      let (r, _, h₂) = >>=-eq-ok (replay start journal) _ h₁ in
      let (_, h₃) = ensure-bind-eq-ok (counts_from 1 journal && nat_eq (length journal) n) _ _ h₂ in
      let (_, h₄) = ensure-bind-eq-ok (same_map r.replayed (held_map locks)) _ _ h₃ in
      (cc h₄, check_locks-IsExclusive locks checked)

-- One more at the end.
pub distinct-snoc :
    (xs : List String) (x : String)
    → distinct xs ≡ true
    → elem x xs ≡ false
    → distinct (xs ++ x ∷ []) ≡ true
distinct-snoc [] x d h = refl
distinct-snoc (y ∷ ys) x d h =
    ground (arith, distinct-snoc ys x, elem-append y ys (x ∷ []), eq_iff x y, eq_iff y x)

has_number-append :
    (n : ℕ) (ms ks : List ℕ) → has_number n (ms ++ ks) ≡ (has_number n ms || has_number n ks)
has_number-append n [] ks = refl
has_number-append n (m ∷ ms) ks = ground (arith, has_number-append n ms ks)

pub distinct_numbers-snoc :
    (ms : List ℕ) (n : ℕ)
    → distinct_numbers ms ≡ true
    → has_number n ms ≡ false
    → distinct_numbers (ms ++ n ∷ []) ≡ true
distinct_numbers-snoc [] n d h = refl
distinct_numbers-snoc (m ∷ ms) n d h =
    ground (arith, distinct_numbers-snoc ms n, has_number-append m ms (n ∷ []))

pub tokens-snoc :
    (ls : List DurableResourceLock) (l : DurableResourceLock)
    → tokens (ls ++ l ∷ []) ≡ tokens ls ++ l.owner.ownership_token ∷ []
tokens-snoc [] l = refl
tokens-snoc (k ∷ ls) l = rw (tokens-snoc ls l) refl

pub owner_tasks-snoc :
    (ls : List DurableResourceLock) (l : DurableResourceLock)
    → owner_tasks (ls ++ l ∷ []) ≡ owner_tasks ls ++ l.owner.task_id ∷ []
owner_tasks-snoc [] l = refl
owner_tasks-snoc (k ∷ ls) l = rw (owner_tasks-snoc ls l) refl

with_slot-append : (o : Option ℕ) (ms ks : List ℕ) → with_slot o (ms ++ ks) ≡ with_slot o ms ++ ks
with_slot-append none ms ks = refl
with_slot-append (some n) ms ks = refl

pub slots-snoc :
    (ls : List DurableResourceLock) (l : DurableResourceLock)
    → slots (ls ++ l ∷ []) ≡ slots ls ++ with_slot l.computer_use_slot []
slots-snoc [] l = refl
slots-snoc (k ∷ ls) l = rw (slots-snoc ls l, with_slot-append k.computer_use_slot) refl

pub elem-owner_tasks :
    (k : String) (ls : List DurableResourceLock)
    → any (λ l. l.owner.task_id == k) ls ≡ elem k (owner_tasks ls)
elem-owner_tasks k [] = refl
elem-owner_tasks k (l ∷ ls) = rw (elem-owner_tasks k ls) refl

pub find_token-none :
    (token : String) (ls : List DurableResourceLock)
    → find_token token ls ≡ none
    → elem token (tokens ls) ≡ false
unfolding find_token
find_token-none token [] h = refl
find_token-none token (l ∷ ls) h = ground (arith, find_token-none token ls)

-- A slot that is found is free, and below the end of the range.
pub free_slot_lem :
    (left slot : ℕ) (used : List ℕ) {n : ℕ}
    → free_slot left slot used ≡ some n
    → (has_number n used ≡ false) × (n < slot + left)
unfolding free_slot
free_slot_lem zero slot used h = absurd (cc h)
free_slot_lem (suc left) slot used {n} h = elim (Bool-cases (has_number slot used)) [
  | inl taken ↦
      let (open_slot, below) = free_slot_lem left (suc slot) used {n = n} (rw taken at h) in
      (open_slot, omega (arith, below))
  | inr open_slot ↦
      let same : slot ≡ n = ground arith in
      (subst (λ m. has_number m used ≡ false) same open_slot, omega (arith, same))
]
