-- ===== src/Resilience/Registers.antt =====
-- Registering a plan change (register_plan_change_request, active_plan_change) keeps the state one
-- that the run-state file accepts.
use codex_autopilot.Prelude.{
  ℕ, suc, String, ◌≡◌, refl, subst, Bool, true, false, not, ◌&&◌, Option, none, some, List, [], ◌∷◌,
  ◌++◌, arith, leb, nat_eq, ◌==◌, length, filter_by, all, is_some, ok, ensure-eq-ok,
  ensure-bind-eq-ok, length-append,
}
use codex_autopilot.RunState.{RunState, PlanChange, PlanChangeRequest, ResilienceEvent}
use codex_autopilot.Resources.Normalize.{Host}
use codex_autopilot.Resources.Journal.{has_number, distinct_numbers}
use codex_autopilot.Resources.Locks.Exclusive.{distinct_numbers-snoc}
use codex_autopilot.StateStore.{
  check_limits, check_tasks, is_active, check_ages, check_locks_of, check_tallies, check_lifecycle,
  check_sessions, check_session, check_changes, check_resilience, check_change, validate_state,
  change_ids, open_changes, is_only, resilience_counts, is_named, knows,
}
use codex_autopilot.StateStore.Accepts.{
  IsAccepted, validate_state_sound, validate_state_complete, all-append, resilience_counts-snoc,
  change_ids-snoc, has_number_above, all-leb-up, open_changes-append, none_open,
}
use codex_autopilot.Resilience.{
  append_resilience_event, has_id, active_plan_change, new_change, register_plan_change_request,
}

-- An id that no record has is sought in vain.
pub filter_by-new :
    (n : ℕ) (cs : List PlanChange)
    → has_number n (change_ids cs) ≡ false
    → filter_by (has_id n) cs ≡ []
filter_by-new n [] h = refl
filter_by-new n (c ∷ cs) h = ground (arith, filter_by-new n cs)

pub filter_by-append {ℓ} :
    {A : Type ℓ} (p : A → Bool) (xs ys : List A)
    → filter_by p (xs ++ ys) ≡ filter_by p xs ++ filter_by p ys
filter_by-append p [] ys = refl
filter_by-append p (x ∷ xs) ys = ground (arith, filter_by-append p xs ys)

-- What `check_changes` found.
pub record HasChanges (s : RunState) : Type 0 where
  pub each_ok : all (check_change s) s.plan_changes ≡ true
  pub ids_once : distinct_numbers (change_ids s.plan_changes) ≡ true
  pub ids_counted : all (λ n. leb n s.plan_change_sequence) (change_ids s.plan_changes) ≡ true
  pub one_open : is_only s.active_plan_change_id (open_changes s.plan_changes) ≡ true

pub check_changes_sound : (s : RunState) → check_changes s ≡ ok tt → HasChanges s
unfolding check_changes
check_changes_sound s h =
    let (e₁, h₁) = ensure-bind-eq-ok (all (check_change s) s.plan_changes) _ _ h in
    let (e₂, h₂) = ensure-bind-eq-ok (distinct_numbers (change_ids s.plan_changes)) _ _ h₁ in
    let (e₃, h₃) =
      ensure-bind-eq-ok (all (λ n. leb n s.plan_change_sequence) (change_ids s.plan_changes)) _ _
        h₂ in
    record {
      each_ok = e₁;
      ids_once = e₂;
      ids_counted = e₃;
      one_open = ensure-eq-ok (is_only s.active_plan_change_id (open_changes s.plan_changes)) _ h₃;
    }

pub check_changes_complete : (s : RunState) → HasChanges s → check_changes s ≡ ok tt
unfolding check_changes
check_changes_complete s c = rw (c.each_ok, c.ids_once, c.ids_counted, c.one_open)

module _ (s : RunState) (request : PlanChangeRequest) (requester token at : String) where
  abbrev change : PlanChange
  change = new_change s request requester token at

  abbrev registered : RunState
  registered = record s {
    plan_change_sequence = suc s.plan_change_sequence;
    plan_changes = s.plan_changes ++ change ∷ [];
    active_plan_change_id = some change.id;
  }

  abbrev after : RunState
  after =
      append_resilience_event registered "plan_change_requested" (some requester) (some change.id)

  module _ (known : knows s.task_states requester ≡ true) (named : is_named requester ≡ true)
      (token_named : is_named token ≡ true) (at_named : is_named at ≡ true)
      (versioned : leb 1 s.graph_version ≡ true) where
    new_change_ok : check_change s change ≡ true
    unfolding check_change new_change
    new_change_ok = rw (known, named, token_named, at_named, versioned)

    changes_after : s.active_plan_change_id ≡ none → HasChanges s → HasChanges after
    unfolding append_resilience_event check_change new_change
    changes_after idle c =
        let fresh : has_number change.id (change_ids s.plan_changes) ≡ false =
          has_number_above s.plan_change_sequence change.id (change_ids s.plan_changes)
            c.ids_counted (omega arith) in
        let none_is : open_changes s.plan_changes ≡ [] =
          none_open (open_changes s.plan_changes) (rw idle at c.one_open) in
        record {
          each_ok = rw (all-append, c.each_ok, new_change_ok);
          ids_once = rw (
            change_ids-snoc,
            distinct_numbers-snoc (change_ids s.plan_changes) change.id c.ids_once fresh,
          );
          ids_counted =
              rw
                (
                  change_ids-snoc,
                  all-append,
                  all-leb-up s.plan_change_sequence change.id (change_ids s.plan_changes)
                      c.ids_counted (omega arith),
                )
                (ground arith);
          one_open = rw (open_changes-append, none_is) (ground arith);
        }

    resilience_after : check_resilience s ≡ ok tt → check_resilience after ≡ ok tt
    unfolding check_resilience append_resilience_event
    resilience_after h =
        let (e₁, h₁) =
          ensure-bind-eq-ok
            (resilience_counts 1 s.resilience_journal
              && nat_eq (length s.resilience_journal) s.resilience_journal_sequence)
            _ _ h in
        let e₂ = ensure-eq-ok (all (λ e. is_named e.event) s.resilience_journal) _ h₁ in
        let e : ResilienceEvent = record {
          sequence = suc s.resilience_journal_sequence;
          event = "plan_change_requested";
          task_id = some requester;
          plan_change_id = some change.id;
        } in
        let counted : resilience_counts 1 (s.resilience_journal ++ e ∷ []) ≡ true =
          resilience_counts-snoc 1 s.resilience_journal e (ground arith) (ground arith) in
        let measured : nat_eq (length (s.resilience_journal ++ e ∷ []))
              (suc s.resilience_journal_sequence)
            ≡ true =
          ground (arith, length-append s.resilience_journal (e ∷ [])) in
        rw (counted, measured, all-append, e₂) refl

    after-IsAccepted :
        (host : Host) → s.active_plan_change_id ≡ none → IsAccepted host s → IsAccepted host after
    unfolding check_limits check_tasks is_active check_ages check_locks_of check_tallies
        check_lifecycle check_sessions check_session append_resilience_event
    after-IsAccepted host idle a = record {
      limits_ok = a.limits_ok;
      tasks_ok = a.tasks_ok;
      ages_ok = a.ages_ok;
      locks_ok = a.locks_ok;
      tallies_ok = a.tallies_ok;
      lifecycle_ok = a.lifecycle_ok;
      sessions_ok = a.sessions_ok;
      changes_ok =
          check_changes_complete after (changes_after idle (check_changes_sound s a.changes_ok));
      resilience_ok = resilience_after a.resilience_ok;
    }

    the_change_is_active :
        s.active_plan_change_id ≡ none → HasChanges s → active_plan_change after none ≡ ok change
    unfolding active_plan_change append_resilience_event new_change
    the_change_is_active idle c =
        let fresh : has_number change.id (change_ids s.plan_changes) ≡ false =
          has_number_above s.plan_change_sequence change.id (change_ids s.plan_changes)
            c.ids_counted (omega arith) in
        rw (filter_by-append, filter_by-new change.id s.plan_changes fresh) (ground arith)

pub check_limits-version : (s : RunState) → check_limits s ≡ ok tt → leb 1 s.graph_version ≡ true
unfolding check_limits
check_limits-version s h = (ensure-bind-eq-ok (leb 1 s.graph_version) _ _ h).0

pub none_of : (o : Option ℕ) → not (is_some o) ≡ true → o ≡ none
none_of none h = refl
none_of (some n) h = cc

-- If the run-state file accepts a state, and a request is registered for a known and named task, a
-- named token and a time, then the file accepts the new state, the new record is its one active
-- change, and the task states are as they were.
pub register_plan_change_request-accepted :
    (host : Host) (s : RunState) (request : PlanChangeRequest) (requester token at : String)
    {c : PlanChange} {next : RunState}
    → validate_state host s ≡ ok tt
    → knows s.task_states requester ≡ true
    → is_named requester ≡ true
    → is_named token ≡ true
    → is_named at ≡ true
    → register_plan_change_request s request requester token at ≡ ok (c, next)
    → (validate_state host next ≡ ok tt)
      × (active_plan_change next none ≡ ok c)
      × (next.task_states ≡ s.task_states)
unfolding register_plan_change_request append_resilience_event
register_plan_change_request-accepted host s request requester token at {c} {next} valid known named
      token_named at_named run =
    let a = validate_state_sound host s valid in
    let versioned = check_limits-version s a.limits_ok in
    let (idle, h₁) = ensure-bind-eq-ok (not (is_some s.active_plan_change_id)) _ _ run in
    let (_, h₂) = ensure-bind-eq-ok (request.target_task_id == requester) _ _ h₁ in
    let none_active = none_of s.active_plan_change_id idle in
    let same_state : after s request requester token at ≡ next = cc h₂ in
    let same_change : change s request requester token at ≡ c = cc h₂ in
    let accepted = validate_state_complete host (after s request requester token at) (
      after-IsAccepted s request requester token at known named token_named at_named versioned host
        none_active a) in
    let active =
      the_change_is_active s request requester token at known named token_named at_named versioned
        none_active (check_changes_sound s a.changes_ok) in
    (
      subst (λ n. validate_state host n ≡ ok tt) same_state accepted,
      subst (λ d. active_plan_change next none ≡ ok d) same_change
          (subst (λ n. active_plan_change n none ≡ ok (change s request requester token at))
            same_state active),
      subst (λ n. n.task_states ≡ s.task_states) same_state refl,
    )
