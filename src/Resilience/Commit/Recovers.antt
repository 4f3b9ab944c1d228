-- ===== src/Resilience/Commit/Recovers.antt =====
-- Whatever write of commit_plan_change a crash follows, recover_plan_change_transaction completes the
-- commit (src/codex_autopilot/resilience.py).
use codex_autopilot.Prelude.{
  ℕ, String, ◌≡◌, refl, ap, subst, Bool, true, false, ◌&&◌, ◌||◌, none, some, [], ◌∷◌, arith,
  eq_iff, nat_eq, ◌==◌, ==_refl, All, elem, Dict, Result, ok, >>=-eq-ok, ensure-bind-eq-ok,
}
use codex_autopilot.Plan.{Plan}
use codex_autopilot.Plan.Equality.{same_plan}
use codex_autopilot.TaskState.{validate_task_states}
use codex_autopilot.RunState.{RunState}
use codex_autopilot.StateStore.{load, save}
use codex_autopilot.StateStore.Accepts.{load-saves}
use codex_autopilot.Resources.Normalize.{Host}
use codex_autopilot.Resilience.Commit.{
  Transaction, Disk, with_status, Trace, transaction_statuses, prepare, write_all,
  commit_plan_change, one_of, check_files, check_transaction, recover_from,
  recover_plan_change_transaction,
}

module _ (host : Host) (digest : Plan → String) (state_digest : RunState → String)
    (validate_persisted_plan : Plan → Result Plan) where
  abbrev recover : Disk → Result (Bool × Disk)
  recover d = recover_plan_change_transaction host digest state_digest validate_persisted_plan d

  -- Recovery succeeds, both files hold the target, the record says so, and to recover again does nothing.
  pub record IsCompleted (t : Transaction) (d : Disk) : Type 0 where
    pub worked : Bool
    pub final : Disk
    pub recovers : recover d ≡ ok (worked, final)
    pub plan_is : final.plan ≡ t.target_plan
    pub state_is : final.state ≡ t.target_state
    pub settled : final.transaction ≡ some (record t { status = "COMMITTED" })
    pub again : recover final ≡ ok (false, final)

  -- A transaction whose target is admitted, validated and digested as it says.
  record IsSound (t : Transaction) : Type 0 where
    plan_digest : (digest t.target_plan == t.target_plan_sha256) ≡ true
    state_digest_is : (state_digest t.target_state == t.target_state_sha256) ≡ true
    admitted : validate_persisted_plan t.target_plan ≡ ok t.target_plan
    plan_version : nat_eq t.target_plan.graph_version t.target_graph_version ≡ true
    state_version : nat_eq t.target_state.graph_version t.target_plan.graph_version ≡ true
    task_states : Dict String
    task_states_ok :
        validate_task_states t.target_plan t.target_state.task_states true ≡ ok task_states
    saved : save host t.target_state ≡ ok t.target_state

  transaction_ok :
      (t : Transaction) (status : String)
      → IsSound t
      → elem status transaction_statuses ≡ true
      → check_transaction host digest state_digest validate_persisted_plan
          (record t { status = status })
        ≡ ok t.target_plan
  unfolding check_transaction
  transaction_ok t status s h =
      rw
        (
          h, s.plan_digest, s.state_digest_is, s.admitted, s.plan_version, s.state_version,
          s.task_states_ok,
        )
        refl

  committed_settled :
      (t : Transaction) (d : Disk)
      → IsSound t
      → recover (with_status t "COMMITTED" d) ≡ ok (false, with_status t "COMMITTED" d)
  unfolding recover_plan_change_transaction recover_from
  committed_settled t d s = rw (transaction_ok t "COMMITTED" s (ground arith)) (ground arith)

  -- Recovery from a disk whose files are the transaction's.
  completes :
      (t : Transaction) (status : String) (d : Disk)
      → IsSound t
      → elem status transaction_statuses ≡ true
      → (status == "COMMITTED") ≡ false
      → check_files host digest state_digest d (record t { status = status }) ≡ ok tt
      → d.transaction ≡ some (record t { status = status })
      → IsCompleted t d
  unfolding recover_plan_change_transaction recover_from
  completes t status d s known unfinished files held =
      let final =
        with_status t "COMMITTED" (record d { plan = t.target_plan; state = t.target_state }) in
      record {
        worked = true;
        final = final;
        recovers = rw (held, transaction_ok t status s known, unfinished, files, s.saved) refl;
        plan_is = refl;
        state_is = refl;
        settled = refl;
        again = committed_settled t final s;
      }

  one_of_left : (a b c : String) → a ≡ b → one_of a b c ≡ true
  one_of_left a b c h = ground (arith, (eq_iff a b).1 h)

  one_of_right : (a b c : String) → a ≡ c → one_of a b c ≡ true
  one_of_right a b c h = ground (arith, (eq_iff a c).1 h)

  -- The files are the base's or the target's.
  files_ok :
      (d : Disk) (t : Transaction) (read : RunState)
      → load host d.state d.rate_limits ≡ ok read
      → one_of (digest d.plan) t.base_plan_sha256 t.target_plan_sha256 ≡ true
      → (nat_eq read.graph_version t.base_graph_version
          || nat_eq read.graph_version t.target_graph_version)
        ≡ true
      → one_of (state_digest read) t.base_state_sha256 t.target_state_sha256 ≡ true
      → check_files host digest state_digest d t ≡ ok tt
  unfolding check_files
  files_ok d t read loaded plan_of version_of state_of =
      rw (plan_of, loaded, version_of, state_of) refl

  module _ (d : Disk) (current candidate : Plan) (state base : RunState) (request_id : ℕ)
      (plan_read : d.plan ≡ current) (base_read : load host d.state d.rate_limits ≡ ok base)
      (base_version : nat_eq base.graph_version current.graph_version ≡ true)
      (state_read : load host state d.rate_limits ≡ ok state)
      (state_version : nat_eq state.graph_version candidate.graph_version ≡ true)
      (saved : save host state ≡ ok state)
      (admitted : validate_persisted_plan candidate ≡ ok candidate) {task_states : Dict String}
      (tasks_ok : validate_task_states candidate state.task_states true ≡ ok task_states) where
    abbrev t : Transaction
    t = prepare host digest state_digest current candidate base state request_id

    t-IsSound : IsSound t
    unfolding prepare
    t-IsSound = record {
      plan_digest = ==_refl (digest candidate);
      state_digest_is = ==_refl (state_digest state);
      admitted = admitted;
      plan_version = ground arith;
      state_version = state_version;
      task_states = task_states;
      task_states_ok = tasks_ok;
      saved = saved;
    }

    abbrev prepared : Disk
    prepared = with_status t "PREPARED" d

    abbrev plan_saved : Disk
    plan_saved = record prepared { plan = candidate }

    abbrev plan_written : Disk
    plan_written = with_status t "PLAN_WRITTEN" plan_saved

    abbrev state_written : Disk
    state_written = record plan_written { state = state }

    base_version_of :
        (nat_eq base.graph_version t.base_graph_version
          || nat_eq base.graph_version t.target_graph_version)
        ≡ true
    unfolding prepare
    base_version_of = rw base_version refl

    state_version_of :
        (nat_eq state.graph_version t.base_graph_version
          || nat_eq state.graph_version t.target_graph_version)
        ≡ true
    unfolding prepare
    state_version_of = ground (arith, state_version)

    base_digest_of : one_of (state_digest base) t.base_state_sha256 t.target_state_sha256 ≡ true
    unfolding prepare
    base_digest_of = one_of_left (state_digest base) (state_digest base) (state_digest state) refl

    state_digest_of : one_of (state_digest state) t.base_state_sha256 t.target_state_sha256 ≡ true
    unfolding prepare
    state_digest_of =
        one_of_right (state_digest state) (state_digest base) (state_digest state) refl

    candidate_of : one_of (digest candidate) t.base_plan_sha256 t.target_plan_sha256 ≡ true
    unfolding prepare
    candidate_of = one_of_right (digest candidate) (digest current) (digest candidate) refl

    current_of : one_of (digest d.plan) t.base_plan_sha256 t.target_plan_sha256 ≡ true
    unfolding prepare
    current_of =
        one_of_left (digest d.plan) (digest current) (digest candidate) (ap digest plan_read)

    from_prepared : IsCompleted t prepared
    from_prepared =
        completes t "PREPARED" prepared t-IsSound (ground arith) (ground arith)
          (files_ok prepared (record t { status = "PREPARED" }) base base_read current_of
            base_version_of base_digest_of)
          refl

    from_plan_saved : IsCompleted t plan_saved
    from_plan_saved =
        completes t "PREPARED" plan_saved t-IsSound (ground arith) (ground arith)
          (files_ok plan_saved (record t { status = "PREPARED" }) base base_read candidate_of
            base_version_of base_digest_of)
          refl

    from_plan_written : IsCompleted t plan_written
    from_plan_written =
        completes t "PLAN_WRITTEN" plan_written t-IsSound (ground arith) (ground arith)
          (files_ok plan_written (record t { status = "PLAN_WRITTEN" }) base base_read candidate_of
            base_version_of base_digest_of)
          refl

    from_state_written : IsCompleted t state_written
    from_state_written =
        completes t "PLAN_WRITTEN" state_written t-IsSound (ground arith) (ground arith)
          (files_ok state_written (record t { status = "PLAN_WRITTEN" }) state state_read
            candidate_of state_version_of state_digest_of)
          refl

    from_committed : IsCompleted t (with_status t "COMMITTED" state_written)
    unfolding prepare
    from_committed = record {
      worked = false;
      final = with_status t "COMMITTED" state_written;
      recovers = committed_settled t state_written t-IsSound;
      plan_is = refl;
      state_is = refl;
      settled = refl;
      again = committed_settled t state_written t-IsSound;
    }

    -- The five disks, in order.
    pub all_complete :
        (trace : Trace)
        → write_all host digest state_digest d t candidate state ≡ trace
        → All (λ e. IsCompleted t e) trace.disks × (trace.failure ≡ none)
    unfolding write_all
    all_complete trace h =
        let all_five : All (λ e. IsCompleted t e)
            (prepared
              ∷ plan_saved
              ∷ plan_written
              ∷ state_written
              ∷ with_status t "COMMITTED" state_written
              ∷ []) =
          (
            from_prepared,
            (from_plan_saved, (from_plan_written, (from_state_written, (from_committed, tt)))),
          ) in
        subst (λ (w : Trace). All (λ e. IsCompleted t e) w.disks × (w.failure ≡ none))
          (rw (saved, write_all) at h) (all_five, refl)

-- If a commit runs from a disk whose plan.json is its base, the target state is what would be
-- loaded under the snapshot that stands there, and the target plan and its task states are
-- admitted, then the commit makes all its writes; and from the disk after any one of them, recovery
-- succeeds and leaves the target plan, the target state and the record COMMITTED, and to recover
-- again changes nothing.
pub commit_plan_change-recovers :
    (host : Host) (digest : Plan → String) (state_digest : RunState → String)
    (validate_persisted_plan : Plan → Result Plan) (d : Disk) (validated : Result Plan)
    (candidate : Plan) (state : RunState) (request_id : ℕ) {trace : Trace}
    {task_states : Dict String}
    → commit_plan_change host digest state_digest d validated d.plan candidate state request_id
      ≡ ok trace
    → load host state d.rate_limits ≡ ok state
    → validate_persisted_plan candidate ≡ ok candidate
    → validate_task_states candidate state.task_states true ≡ ok task_states
    → (t : Transaction) × (t.target_plan ≡ candidate)
      × (t.target_state ≡ state)
      × (All (λ e. IsCompleted host digest state_digest validate_persisted_plan t e) trace.disks)
      × (trace.failure ≡ none)
unfolding commit_plan_change prepare load save
commit_plan_change-recovers host digest state_digest vp d validated candidate state request_id
      {trace} h state_read admitted tasks_ok =
    let (admitted_plan, _, h₁) = >>=-eq-ok validated _ h in
    let (both, h₂) =
      ensure-bind-eq-ok
        (same_plan admitted_plan candidate && nat_eq state.graph_version candidate.graph_version) _
        _ h₁ in
    let (base, base_read, h₃) = >>=-eq-ok (load host d.state d.rate_limits) _ h₂ in
    let (base_version, h₄) =
      ensure-bind-eq-ok (nat_eq base.graph_version d.plan.graph_version) _ _ h₃ in
    let saved = load-saves host state d.rate_limits state_read in
    let same_trace : write_all host digest state_digest d
          (prepare host digest state_digest d.plan candidate base state request_id) candidate state
        ≡ trace =
      cc h₄ in
    let state_version : nat_eq state.graph_version candidate.graph_version ≡ true =
      ground (arith, both) in
    let (complete, unfailing) =
      all_complete host digest state_digest vp d d.plan candidate state base request_id refl
        base_read base_version state_read state_version saved admitted tasks_ok trace same_trace in
    (
      prepare host digest state_digest d.plan candidate base state request_id,
      refl,
      refl,
      complete,
      unfailing,
    )
