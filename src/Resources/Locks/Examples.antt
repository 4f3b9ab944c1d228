-- ===== src/Resources/Locks/Examples.antt =====
-- Two tasks that write under one directory: A acquires it, B is refused until A has released it.
use codex_autopilot.Prelude.{
  ℕ, String, ◌≡◌, refl, ◌↔◌, true, false, ◌||◌, Option, none, some, [], ◌∷◌, ◌==◌, lookup, insert,
  ok, delete, All,
}
use codex_autopilot.Plan.{Plan, ResourceClaim, find_task}
use codex_autopilot.RunState.{RunState}
use codex_autopilot.Samples.{plan, task, state_with}
use codex_autopilot.Resources.{NormalizedResourceClaim, LockOwner, DurableResourceLock, LockEvent}
use codex_autopilot.Resources.Targets.{
  split_slash, parts, has_magic, before_magic, glob_static_root, is_prefix, is_within, paths_nested,
  glob_match, glob_matches, targets_overlap, claims_match, claims_conflict,
}
use codex_autopilot.Resources.Targets.Globs.{GlobMatch, glob_match_iff}
use codex_autopilot.Resources.Conflicts.{all_apart}
use codex_autopilot.Resources.Journal.{
  same_held, is_included, same_map, replay_acquired, replay_released, replay_event, replay,
  counts_from, held_map, check_locks, validate_persisted_resource_state,
}
use codex_autopilot.Resources.Normalize.{
  Host, has_nul, join, words, lstrip, rstrip, strip, is_blank, from_magic, path_text, under_root,
  normalize_glob, normalized_target, normalize_claim, normalize_claims,
}
use codex_autopilot.Resources.Locks.{
  free_slot, choose_slot, append_resource_event, grant, grant_slot, reuse, take_new,
  acquire_resources_in_state, release_resources_in_state,
}
use codex_autopilot.Resources.Requests.{
  AcquisitionResult, last_digits, digits_needed, lock_name, check_lock_owner, check_request,
  find_token, conflicts_in, conflicts_with, all_conflicts,
}
use codex_autopilot.Resources.Journal.Appends.{IsNew}
use codex_autopilot.Resources.Locks.Accepted.{validated}
use codex_autopilot.Resources.Locks.Keeps.{acquire_resources_in_state_validates}
use codex_autopilot.Resources.Locks.Exclusive.{IsExclusive}
use codex_autopilot.Resources.Locks.Acquire.{acquire_resources_in_state-IsExclusive}
use codex_autopilot.Resources.Locks.Releases.{release_resources_in_state_validates}
use codex_autopilot.Resources.Locks.Release.{IsReleased, release_resources_in_state-IsReleased}

abbrev claim : String → String → String → ResourceClaim
claim kind target access = record { id = "out"; kind = kind; target = target; access = access }

abbrev writing : Plan
writing = record plan {
  tasks =
      record (task "A" [] 5) { resources = claim "path" "build/out.txt" "write" ∷ [] }
      ∷ record (task "B" [] 5) { resources = claim "directory" "build" "exclusive" ∷ [] }
      ∷ [];
}

-- A host with no links, on which folding and the compatibility form change nothing.
abbrev host : Host
host = record {
  resolve = λ p. p;
  nfkc = λ t. t;
  casefold = λ t. t;
  fnmatchcase = λ name pattern. pattern == "*" || name == pattern;
}

abbrev owner : String → LockOwner
owner task_id = record {
  ownership_token = "token-1";
  run_id = "run-1";
  task_id = task_id;
  attempt = 1;
  worker_id = "w-1";
  thread_id = none;
  turn_id = none;
}

abbrev before : RunState
before = state_with (("A", "READY") ∷ ("B", "READY") ∷ []) []

abbrev lock : DurableResourceLock
lock = record {
  lock_id = "resource-lock-000001";
  owner = owner "A";
  claims =
      record { id = "out"; kind = "path"; target = "/repo/build/out.txt"; access = "write" } ∷ [];
  acquired_at = "t1";
  heartbeat_at = "t1";
  computer_use_slot = none;
}

abbrev event : ℕ → String → String → Option String → LockEvent
event n name at reason = record {
  sequence = n;
  event = name;
  lock_id = "resource-lock-000001";
  ownership_token = "token-1";
  task_id = "A";
  at = at;
  claim_ids = "out" ∷ [];
  computer_use_slot = none;
  reason = reason;
}

abbrev held : RunState
held = record before {
  resource_locks = lock ∷ [];
  resource_lock_journal = event 1 "acquired" "t1" none ∷ [];
  resource_journal_sequence = 1;
}

abbrev after : RunState
after = record held {
  resource_locks = [];
  resource_lock_journal = event 1 "acquired" "t1" none ∷ event 2 "released" "t2" (some "done") ∷ [];
  resource_journal_sequence = 2;
}

abbrev result : AcquisitionResult
result = record {
  acquired = true;
  lock_id = some "resource-lock-000001";
  computer_use_slot = none;
  conflicts = [];
  reason = none;
  reused = false;
}

program : Unit {0}
unfolding lookup insert find_task split_slash parts has_magic before_magic glob_static_root
    is_prefix is_within paths_nested glob_match glob_matches targets_overlap claims_match
    claims_conflict all_apart same_held delete is_included same_map replay_acquired replay_released
    replay_event replay counts_from held_map check_locks validate_persisted_resource_state has_nul
    join words lstrip rstrip strip is_blank from_magic path_text under_root normalize_glob
    normalized_target normalize_claim normalize_claims last_digits digits_needed lock_name
    check_lock_owner check_request find_token conflicts_in conflicts_with all_conflicts free_slot
    choose_slot append_resource_event grant grant_slot reuse take_new acquire_resources_in_state
    release_resources_in_state
program = tt

acquire-A :
    acquire_resources_in_state host "/repo" writing before "A" (owner "A") none "t1"
    ≡ ok (held, result)
unfolding program
acquire-A = refl

refuse-B :
    acquire_resources_in_state host "/repo" writing held "B"
      (record (owner "B") { ownership_token = "token-2" })
      none
      "t1"
    ≡ ok (
      held,
      record {
        acquired = false;
        lock_id = none;
        computer_use_slot = none;
        conflicts =
            record {
              requested_claim_id = "out";
              held_lock_id = "resource-lock-000001";
              held_task_id = "A";
              held_claim_id = "out";
            }
            ∷ [];
        reason = some "resource_conflict";
        reused = false;
      },
    )
unfolding program
refuse-B = refl

release-A : release_resources_in_state host held " token-1" "done" "t2" ≡ ok (after, true)
unfolding program
release-A = refl

acquire_resources_in_state-IsExclusive_example : IsExclusive host held.resource_locks
acquire_resources_in_state-IsExclusive_example =
    acquire_resources_in_state-IsExclusive host "/repo" writing before "A" (owner "A") none "t1"
      acquire-A

release_resources_in_state-IsReleased_example :
    IsReleased host (strip " token-1") after.resource_locks
release_resources_in_state-IsReleased_example =
    release_resources_in_state-IsReleased host held " token-1" "done" "t2" release-A

abbrev second_owner : LockOwner
second_owner = record (owner "B") { ownership_token = "token-2" }

-- B acquires the directory after A has released its file.
abbrev second : RunState
second = record after {
  resource_locks =
      record {
        lock_id = "resource-lock-000003";
        owner = second_owner;
        claims =
            record { id = "out"; kind = "directory"; target = "/repo/build"; access = "exclusive" }
            ∷ [];
        acquired_at = "t3";
        heartbeat_at = "t3";
        computer_use_slot = none;
      }
      ∷ [];
  resource_lock_journal =
      event 1 "acquired" "t1" none
      ∷ event 2 "released" "t2" (some "done")
      ∷ record {
        sequence = 3;
        event = "acquired";
        lock_id = "resource-lock-000003";
        ownership_token = "token-2";
        task_id = "B";
        at = "t3";
        claim_ids = "out" ∷ [];
        computer_use_slot = none;
        reason = none;
      }
      ∷ [];
  resource_journal_sequence = 3;
}

acquire-B :
    acquire_resources_in_state host "/repo" writing after "B" second_owner none "t3"
    ≡ ok (second, record result { lock_id = some "resource-lock-000003" })
unfolding program
acquire-B = refl

All-IsNew : All (IsNew (lock_name 3) "token-2") after.resource_lock_journal
unfolding program
All-IsNew = ((refl, refl), ((refl, refl), tt))

acquire_resources_in_state_validates_example : validated host second ≡ ok second.resource_locks
acquire_resources_in_state_validates_example =
    acquire_resources_in_state_validates host "/repo" writing after "B" second_owner none "t3"
      (refl, (refl, tt)) All-IsNew acquire-B

abbrev folder : NormalizedResourceClaim
folder = record { id = "all"; kind = "glob"; target = "/repo/**/out.txt"; access = "read" }

abbrev file : NormalizedResourceClaim
file = record { id = "one"; kind = "path"; target = "/repo/build/out.txt"; access = "write" }

glob_match_iff_example :
    (glob_match host.fnmatchcase ("**" ∷ "out.txt" ∷ []) ("build" ∷ "out.txt" ∷ []) ≡ true)
    ↔ GlobMatch host.fnmatchcase ("**" ∷ "out.txt" ∷ []) ("build" ∷ "out.txt" ∷ [])
glob_match_iff_example =
    glob_match_iff host.fnmatchcase ("**" ∷ "out.txt" ∷ []) ("build" ∷ "out.txt" ∷ [])

glob-meets-path : claims_conflict host.fnmatchcase host.casefold folder file ≡ true
unfolding program
glob-meets-path = refl

release_resources_in_state_validates_example : validated host after ≡ ok after.resource_locks
release_resources_in_state_validates_example =
    release_resources_in_state_validates host held " token-1" "done" "t2" release-A
