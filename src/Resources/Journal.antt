-- ===== src/Resources/Journal.antt =====
-- The check of the persisted locks (validate_persisted_resource_state): no two held locks conflict or
-- share an id, an owner, a task or a Computer Use slot, and the journal, replayed from its start,
-- ends with exactly the held locks. Every refusal is one failure.
pub mod Appends
pub mod Inclusion
pub mod Removal
use codex_autopilot.Prelude.{
  ℕ, suc, String, Bool, true, false, not, ◌&&◌, ◌||◌, Option, none, some, List, [], ◌∷◌, map, leb,
  nat_eq, ◌==◌, if◌then◌else◌, length, all, elem, Dict, lookup, insert, is_some, Result, ok, ◌>>=◌,
  ◌>>◌, ensure, or_raise, bad_resource_state, same_texts, delete,
}
use codex_autopilot.Resources.{DurableResourceLock, LockEvent}
use codex_autopilot.Resources.Conflicts.{all_apart}

-- LOCK_EVENTS
abbrev pub lock_events : List String
lock_events = "acquired" ∷ "released" ∷ "reconciled_release" ∷ []

-- len(xs) == len(set(xs))
abbrev pub distinct : List String → Bool
distinct [] = true
distinct (x ∷ xs) = not (elem x xs) && distinct xs

abbrev pub has_number : ℕ → List ℕ → Bool
has_number n [] = false
has_number n (m ∷ ms) = nat_eq m n || has_number n ms

abbrev pub distinct_numbers : List ℕ → Bool
distinct_numbers [] = true
distinct_numbers (n ∷ ns) = not (has_number n ns) && distinct_numbers ns

abbrev pub lock_ids : List DurableResourceLock → List String
lock_ids [] = []
lock_ids (l ∷ ls) = l.lock_id ∷ lock_ids ls

abbrev pub tokens : List DurableResourceLock → List String
tokens [] = []
tokens (l ∷ ls) = l.owner.ownership_token ∷ tokens ls

abbrev pub owner_tasks : List DurableResourceLock → List String
owner_tasks [] = []
owner_tasks (l ∷ ls) = l.owner.task_id ∷ owner_tasks ls

abbrev pub with_slot : Option ℕ → List ℕ → List ℕ
with_slot none rest = rest
with_slot (some n) rest = n ∷ rest

-- The Computer Use slots that are held.
abbrev pub slots : List DurableResourceLock → List ℕ
slots [] = []
slots (l ∷ ls) = with_slot l.computer_use_slot (slots ls)

abbrev pub claim_ids_of : DurableResourceLock → List String
claim_ids_of l = map (λ c. c.id) l.claims

-- What the journal remembers of a lock: its entry in `replayed`.
pub record Held : Type 0 where
  pub ownership_token : String
  pub task_id : String
  pub claim_ids : List String
  pub computer_use_slot : Option ℕ

abbrev same_slot : Option ℕ → Option ℕ → Bool
same_slot none none = true
same_slot (some m) (some n) = nat_eq m n
same_slot _ _ = false

unfoldable pub same_held : Held → Held → Bool
same_held a b =
    a.ownership_token == b.ownership_token
    && a.task_id == b.task_id
    && same_texts a.claim_ids b.claim_ids
    && same_slot a.computer_use_slot b.computer_use_slot

-- Every entry of the first map stands in the second.
unfoldable pub is_included : Dict Held → Dict Held → Bool
unfolding same_held
is_included [] b = true
is_included ((k, v) ∷ a) b = elim (lookup k b) [
  | none ↦ false
  | some w ↦ same_held v w && is_included a b
]

-- replayed == held, in any order
unfoldable pub same_map : Dict Held → Dict Held → Bool
same_map a b = is_included a b && is_included b a

-- The state of the replay: the ids and tokens ever acquired, and the locks now held.
pub record Replay : Type 0 where
  pub acquired_lock_ids : List String
  pub acquired_owner_tokens : List String
  pub replayed : Dict Held

abbrev pub held_by_event : LockEvent → Held
held_by_event e = record {
  ownership_token = e.ownership_token;
  task_id = e.task_id;
  claim_ids = e.claim_ids;
  computer_use_slot = e.computer_use_slot;
}

abbrev pub held_by_lock : DurableResourceLock → Held
held_by_lock l = record {
  ownership_token = l.owner.ownership_token;
  task_id = l.owner.task_id;
  claim_ids = claim_ids_of l;
  computer_use_slot = l.computer_use_slot;
}

unfoldable pub replay_acquired : Replay → LockEvent → Result Replay
replay_acquired r e = do
  ensure (not (elem e.lock_id r.acquired_lock_ids)) bad_resource_state
  ensure (not (elem e.ownership_token r.acquired_owner_tokens)) bad_resource_state
  ensure (not (is_some e.reason)) bad_resource_state
  ok (record {
    acquired_lock_ids = e.lock_id ∷ r.acquired_lock_ids;
    acquired_owner_tokens = e.ownership_token ∷ r.acquired_owner_tokens;
    replayed = insert e.lock_id (held_by_event e) r.replayed;
  })

unfoldable pub replay_released : Replay → LockEvent → Result Replay
replay_released r e = do
  ensure (is_some e.reason) bad_resource_state
  active ← or_raise (lookup e.lock_id r.replayed) bad_resource_state
  ensure (same_held active (held_by_event e)) bad_resource_state
  ok (record r { replayed = delete e.lock_id r.replayed })

unfoldable pub replay_event : Replay → LockEvent → Result Replay
replay_event r e = do
  ensure (leb 1 e.sequence) bad_resource_state
  ensure (elem e.event lock_events) bad_resource_state
  ensure (distinct e.claim_ids) bad_resource_state
  if e.event == "acquired" then replay_acquired r e else replay_released r e

unfoldable pub replay : Replay → List LockEvent → Result Replay
replay r [] = ok r
replay r (e ∷ es) = replay_event r e >>= λ next. replay next es

abbrev pub start : Replay
start = record { acquired_lock_ids = []; acquired_owner_tokens = []; replayed = [] }

-- The sequence numbers count up from `n`.
unfoldable pub counts_from : ℕ → List LockEvent → Bool
counts_from n [] = true
counts_from n (e ∷ es) = nat_eq e.sequence n && counts_from (suc n) es

-- {lock.lock_id: (token, task, claim ids, slot) for lock in locks}
unfoldable pub held_map : List DurableResourceLock → Dict Held
held_map [] = []
held_map (l ∷ ls) = (l.lock_id, held_by_lock l) ∷ held_map ls

-- The checks on the locks alone.
unfoldable pub check_locks :
    (String → String → Bool) → (String → String) → List DurableResourceLock → Result (Unit {0})
check_locks fnmatchcase casefold locks = do
  ensure (distinct (lock_ids locks)) bad_resource_state
  ensure (distinct (tokens locks)) bad_resource_state
  ensure (distinct (owner_tasks locks)) bad_resource_state
  ensure (distinct_numbers (slots locks)) bad_resource_state
  ensure (all (λ l. distinct (claim_ids_of l)) locks) bad_resource_state
  ensure (all_apart fnmatchcase casefold locks) bad_resource_state

-- The records are read already: the readers of their JSON (from_dict) are left out.
unfoldable pub validate_persisted_resource_state :
    (String → String → Bool)
    → (String → String)
    → List DurableResourceLock
    → List LockEvent
    → ℕ
    → Result (List DurableResourceLock)
validate_persisted_resource_state fnmatchcase casefold locks journal sequence = do
  check_locks fnmatchcase casefold locks
  replayed ← replay start journal
  ensure (counts_from 1 journal && nat_eq (length journal) sequence) bad_resource_state
  ensure (same_map replayed.replayed (held_map locks)) bad_resource_state
  ok locks
