-- ===== src/Resilience/Commit/Snapshots.antt =====
-- The rate-limit snapshot is part of the state that a transaction digests, and another thread writes
-- its file meanwhile (StateStore.record_rate_limits of src/codex_autopilot/run_state.py).
use codex_autopilot.Prelude.{
  ℕ, String, ◌≡◌, refl, sym, ap, ◌∙◌, subst, inl, inr, false, ◌&&◌, ◌||◌, Option, none, some, List,
  [], ◌∷◌, arith, nat_eq, ◌==◌, Result, ok, err, >>=-eq-ok, ensure-eq-ok, ensure-bind-eq-ok,
  Result-cases, Failure, ok-injective,
}
use codex_autopilot.Plan.{Plan}
use codex_autopilot.Usage.{Limits, missing, wrapped, flat}
use codex_autopilot.RunState.{RunState}
use codex_autopilot.StateStore.{load, save, with_limits}
use codex_autopilot.StateStore.Accepts.{load-with_limits}
use codex_autopilot.Plan.Equality.{same_plan}
use codex_autopilot.Resources.Normalize.{Host}
use codex_autopilot.Resilience.Commit.{
  Transaction, Disk, one_of, check_files, check_transaction, recover_from,
  recover_plan_change_transaction, prepare, write_all, commit_plan_change, Trace, with_status,
  record_rate_limits,
}

abbrev pub first : List Disk → Option Disk
first [] = none
first (d ∷ ds) = some d

module _ (host : Host) (digest : Plan → String) (state_digest : RunState → String) where
  other_state :
      (d : Disk) (t : Transaction)
      → one_of
          (state_digest (with_limits d.rate_limits d.state))
          t.base_state_sha256
          t.target_state_sha256
        ≡ false
      → (e : Failure) × (check_files host digest state_digest d t ≡ err e)
  unfolding check_files
  other_state d t h = elim (Result-cases (check_files host digest state_digest d t)) [
    | inr failed ↦ failed
    | inl passed ↦
        let (_, h₁) =
          ensure-bind-eq-ok (one_of (digest d.plan) t.base_plan_sha256 t.target_plan_sha256) _ _
            passed.1 in
        let (read, loaded, h₂) = >>=-eq-ok (load host d.state d.rate_limits) _ h₁ in
        let (_, h₃) =
          ensure-bind-eq-ok
            (nat_eq read.graph_version t.base_graph_version
              || nat_eq read.graph_version t.target_graph_version)
            _ _ h₂ in
        let same_digest =
          ensure-eq-ok (one_of (state_digest read) t.base_state_sha256 t.target_state_sha256) _
            h₃ in
        let is_read = load-with_limits host d.state d.rate_limits loaded in
        absurd (cc (h, same_digest, is_read))
  ]

  stops :
      (validate_persisted_plan : Plan → Result Plan) (d : Disk) (t : Transaction) (e : Failure)
      {target : Plan}
      → d.transaction ≡ some t
      → check_transaction host digest state_digest validate_persisted_plan t ≡ ok target
      → (t.status == "COMMITTED") ≡ false
      → check_files host digest state_digest d t ≡ err e
      → recover_plan_change_transaction host digest state_digest validate_persisted_plan d ≡ err e
  unfolding recover_plan_change_transaction recover_from
  stops validate_persisted_plan d t e held target unfinished failed =
      subst (λ o. recover_from host digest state_digest validate_persisted_plan o d ≡ err e)
        (sym held) (rw (target, unfinished, failed) refl)

  -- An unfinished transaction is refused where the state that is read has neither digest.
  refuses :
      (validate_persisted_plan : Plan → Result Plan) (d : Disk) (t : Transaction)
      → d.transaction ≡ some t
      → (t.status == "COMMITTED") ≡ false
      → one_of
          (state_digest (with_limits d.rate_limits d.state))
          t.base_state_sha256
          t.target_state_sha256
        ≡ false
      → (e : Failure) × (recover_plan_change_transaction host digest state_digest
            validate_persisted_plan d
          ≡ err e)
  unfolding recover_plan_change_transaction recover_from
  refuses validate_persisted_plan d t held unfinished other =
      elim (Result-cases (check_transaction host digest state_digest validate_persisted_plan t)) [
        | inr failed ↦ (
          failed.0,
          subst
              (λ o.
                recover_from host digest state_digest validate_persisted_plan o d ≡ err failed.0)
              (sym held) (rw failed.1 refl),
        )
        | inl target ↦
            let stopped = other_state d t other in
            (
              stopped.0,
              stops validate_persisted_plan d t stopped.0 held target.1 unfinished stopped.1,
            )
      ]

  first_written :
      (d : Disk) (t : Transaction) (candidate : Plan) (state : RunState)
      → first (write_all host digest state_digest d t candidate state).disks
        ≡ some (with_status t "PREPARED" d)
  unfolding write_all
  first_written d t candidate state = elim (Result-cases (save host state)) [
    | inl saved ↦ rw (saved.1, write_all) refl
    | inr failed ↦ rw (failed.1, write_all) refl
  ]

-- Only the rate-limit file is written.
record_keeps_transaction :
    (limits : Limits) (d : Disk) → (record_rate_limits limits d).transaction ≡ d.transaction
unfolding record_rate_limits
record_keeps_transaction missing d = refl
record_keeps_transaction (wrapped s) d = refl
record_keeps_transaction (flat s) d = refl

record_with_status :
    (limits : Limits) (t : Transaction) (status : String) (d : Disk)
    → with_limits
        (record_rate_limits limits (with_status t status d)).rate_limits
        (record_rate_limits limits (with_status t status d)).state
      ≡ with_limits (record_rate_limits limits d).rate_limits d.state
unfolding record_rate_limits
record_with_status missing t status d = refl
record_with_status (wrapped s) t status d = refl
record_with_status (flat s) t status d = refl

some-injective : {a b : Disk} → some a ≡ some b → a ≡ b
some-injective h = cc

-- If a commit stops after its first write, and then a rate-limit snapshot is recorded under which
-- the old state has neither the digest of the base nor that of the target, recovery fails.
pub recover_plan_change_transaction-stale_limits :
    (host : Host) (digest : Plan → String) (state_digest : RunState → String)
    (validate_persisted_plan : Plan → Result Plan) (d : Disk) (validated : Result Plan)
    (candidate : Plan) (state : RunState) (request_id : ℕ) (limits : Limits) {trace : Trace}
    {crashed : Disk}
    → commit_plan_change host digest state_digest d validated d.plan candidate state request_id
      ≡ ok trace
    → first trace.disks ≡ some crashed
    → one_of
        (state_digest (with_limits (record_rate_limits limits d).rate_limits d.state))
        (state_digest (with_limits d.rate_limits d.state))
        (state_digest state)
      ≡ false
    → (e : Failure) × (recover_plan_change_transaction host digest state_digest
          validate_persisted_plan
          (record_rate_limits limits crashed)
        ≡ err e)
unfolding commit_plan_change prepare
recover_plan_change_transaction-stale_limits host digest state_digest vp d validated candidate state
      request_id limits {trace} {crashed} h is_first other =
    let (admitted_plan, _, h₁) = >>=-eq-ok validated _ h in
    let (both, h₂) =
      ensure-bind-eq-ok
        (same_plan admitted_plan candidate && nat_eq state.graph_version candidate.graph_version) _
        _ h₁ in
    let (base, base_read, h₃) = >>=-eq-ok (load host d.state d.rate_limits) _ h₂ in
    let (base_version, h₄) =
      ensure-bind-eq-ok (nat_eq base.graph_version d.plan.graph_version) _ _ h₃ in
    let t = prepare host digest state_digest d.plan candidate base state request_id in
    let is_base = load-with_limits host d.state d.rate_limits base_read in
    let written = first_written host digest state_digest d t candidate state in
    let is_crashed : with_status t "PREPARED" d ≡ crashed =
      some-injective (sym written ∙ (ap (λ r. first r.disks) (ok-injective h₄) ∙ is_first)) in
    let stale = record_rate_limits limits (with_status t "PREPARED" d) in
    let read_other : one_of (state_digest (with_limits stale.rate_limits stale.state))
          (state_digest base) (state_digest state)
        ≡ false =
      subst (λ r. one_of (state_digest r) (state_digest base) (state_digest state) ≡ false)
        (sym (record_with_status limits t "PREPARED" d))
        (subst
          (λ b.
            one_of (state_digest (with_limits (record_rate_limits limits d).rate_limits d.state))
              (state_digest b) (state_digest state)
            ≡ false)
          is_base other) in
    subst
      (λ c.
        (e : Failure) × (recover_plan_change_transaction host digest state_digest vp
            (record_rate_limits limits c)
          ≡ err e))
      is_crashed
      (refuses host digest state_digest vp stale (record t { status = "PREPARED" })
        (record_keeps_transaction limits (with_status t "PREPARED" d)) (ground arith) read_other)
