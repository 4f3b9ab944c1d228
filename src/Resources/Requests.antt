-- ===== src/Resources/Requests.antt =====
-- A request for a bundle of resources: the checks of the task and its owner, and the conflicts with
-- the held locks (the first half of acquire_resources_in_state).
use Prim.Native.String.{◌++◌ as ◌⊕◌}
use codex_autopilot.Prelude.{
  ℕ, zero, suc, ◌-◌, ◌*◌, ◌/◌, max, String, Bool, true, false, not, ◌&&◌, ◌||◌, Option, none, some,
  List, [], ◌∷◌, ◌++◌, ltb, nat_eq, ◌==◌, if◌then◌else◌, elem, lookup, keys, Result, ok, ◌>>=◌,
  ◌>>◌, ensure, or_raise, is_empty, bad_lock_owner, unknown_task_id, scheduler_graph_mismatch,
}
use codex_autopilot.Plan.{Task, Plan, find_task}
use codex_autopilot.RunState.{RunState}
use codex_autopilot.Resources.{NormalizedResourceClaim, LockOwner, DurableResourceLock}
use codex_autopilot.Resources.Targets.{claims_conflict}
use codex_autopilot.Resources.Normalize.{Host, is_blank}

pub record ResourceConflict : Type 0 where
  pub requested_claim_id : String
  pub held_lock_id : String
  pub held_task_id : String
  pub held_claim_id : String

pub record AcquisitionResult : Type 0 where
  pub acquired : Bool
  pub lock_id : Option String
  pub computer_use_slot : Option ℕ
  pub conflicts : List ResourceConflict
  pub reason : Option String
  pub reused : Bool

abbrev pick : ℕ → List String → String
pick n [] = ""
pick zero (d ∷ ds) = d
pick (suc n) (d ∷ ds) = pick n ds

abbrev digit : ℕ → String
digit n = pick n ("0" ∷ "1" ∷ "2" ∷ "3" ∷ "4" ∷ "5" ∷ "6" ∷ "7" ∷ "8" ∷ "9" ∷ [])

-- The last `width` decimal digits, with leading zeros.
unfoldable pub last_digits : ℕ → ℕ → String
last_digits zero n = ""
last_digits (suc width) n = last_digits width (n / 10) ⊕ digit (n - (n / 10) * 10)

-- How many digits `n` needs: at most as many as the fuel, which `n` itself is.
unfoldable pub digits_needed : ℕ → ℕ → ℕ
digits_needed zero n = 1
digits_needed (suc fuel) n =
    let rest = digits_needed fuel (n / 10) in if ltb n 10 then 1 else suc rest

-- f"resource-lock-{sequence:06d}"
unfoldable pub lock_name : ℕ → String
lock_name sequence =
    "resource-lock-" ⊕ last_digits (max 6 (digits_needed sequence sequence)) sequence

abbrev filled : Option String → Bool
filled none = true
filled (some t) = not (is_blank t)

-- The checks of `LockOwner.from_dict` on texts.
unfoldable pub check_lock_owner : LockOwner → Result (Unit {0})
check_lock_owner o = do
  ensure (not (is_blank o.ownership_token) && not (is_blank o.run_id)) bad_lock_owner
  ensure (not (is_blank o.task_id) && not (is_blank o.worker_id)) bad_lock_owner
  ensure (filled o.thread_id && filled o.turn_id) bad_lock_owner

abbrev pub agrees : Option ℕ → ℕ → Bool
agrees none n = true
agrees (some m) n = nat_eq m n

-- The checks of the task, the owner and the durable state, before any lock is read.
unfoldable pub check_request : Plan → RunState → String → LockOwner → Result Task
check_request plan state task_id owner = do
  task ← or_raise (find_task task_id plan.tasks) (unknown_task_id task_id)
  ensure (owner.task_id == task_id) bad_lock_owner
  check_lock_owner owner
  ensure (state.run_id == owner.run_id) bad_lock_owner
  ensure (nat_eq state.graph_version plan.graph_version) scheduler_graph_mismatch
  ensure (is_empty state.task_states || elem owner.task_id (keys state.task_states)) bad_lock_owner
  ensure (agrees (lookup owner.task_id state.task_attempts) owner.attempt) bad_lock_owner
  ok task

-- execution_mode or task.execution_mode
abbrev pub mode_or : Option String → String → String
mode_or none mode = mode
mode_or (some m) mode = if m == "" then mode else m

unfoldable pub find_token : String → List DurableResourceLock → Option DurableResourceLock
find_token token [] = none
find_token token (l ∷ ls) = if l.owner.ownership_token == token then some l else find_token token ls

abbrev same_text : Option String → Option String → Bool
same_text none none = true
same_text (some a) (some b) = a == b
same_text _ _ = false

abbrev pub same_owner : LockOwner → LockOwner → Bool
same_owner a b =
    a.ownership_token == b.ownership_token
    && a.run_id == b.run_id
    && a.task_id == b.task_id
    && nat_eq a.attempt b.attempt
    && a.worker_id == b.worker_id
    && same_text a.thread_id b.thread_id
    && same_text a.turn_id b.turn_id

abbrev pub same_claims : List NormalizedResourceClaim → List NormalizedResourceClaim → Bool
same_claims [] [] = true
same_claims (a ∷ more) (b ∷ bs) =
    a.id == b.id
    && a.kind == b.kind
    && a.target == b.target
    && a.access == b.access
    && same_claims more bs
same_claims _ _ = false

module _ (host : Host) where
  -- The conflicts of one requested claim with the claims of one lock.
  unfoldable pub conflicts_in :
      NormalizedResourceClaim
      → DurableResourceLock
      → List NormalizedResourceClaim
      → List ResourceConflict
  conflicts_in requested lock [] = []
  conflicts_in requested lock (held ∷ more) =
      let rest = conflicts_in requested lock more in
      if claims_conflict host.fnmatchcase host.casefold requested held
      then record {
        requested_claim_id = requested.id;
        held_lock_id = lock.lock_id;
        held_task_id = lock.owner.task_id;
        held_claim_id = held.id;
      }
        ∷ rest
      else rest

  unfoldable pub conflicts_with :
      NormalizedResourceClaim → List DurableResourceLock → List ResourceConflict
  conflicts_with requested [] = []
  conflicts_with requested (lock ∷ locks) =
      conflicts_in requested lock lock.claims ++ conflicts_with requested locks

  unfoldable pub all_conflicts :
      List NormalizedResourceClaim → List DurableResourceLock → List ResourceConflict
  all_conflicts [] locks = []
  all_conflicts (c ∷ cs) locks = conflicts_with c locks ++ all_conflicts cs locks
