-- ===== src/StateStore/Accepts.antt =====
-- What a state that `_validate_state` accepts is, check by check, and the checks of one more record
-- of a journal or of the plan changes (src/codex_autopilot/run_state.py).
use codex_autopilot.Prelude.{
  ℕ, suc, ◌+◌, ◌≤◌, ◌<◌, ◌≡◌, refl, subst, Bool, true, false, ◌&&◌, none, List, [], ◌∷◌, ◌++◌,
  arith, leb, length, all, ok, >>=-eq-ok,
}
use codex_autopilot.Usage.{Limits}
use codex_autopilot.RunState.{RunState, PlanChange, ResilienceEvent}
use codex_autopilot.Resources.Normalize.{Host}
use codex_autopilot.Resources.Journal.{has_number}
use codex_autopilot.StateStore.{
  check_limits, check_tasks, check_ages, check_locks_of, check_tallies, check_lifecycle,
  check_sessions, check_changes, check_resilience, validate_state, change_ids, open_changes,
  is_only, resilience_counts, with_limits, load, save,
}

-- Every check of `validate_state` has passed.
pub record IsAccepted (host : Host) (s : RunState) : Type 0 where
  pub limits_ok : check_limits s ≡ ok tt
  pub tasks_ok : check_tasks s ≡ ok tt
  pub ages_ok : check_ages s ≡ ok tt
  pub locks_ok : check_locks_of host s ≡ ok tt
  pub tallies_ok : check_tallies s ≡ ok tt
  pub lifecycle_ok : check_lifecycle s ≡ ok tt
  pub sessions_ok : check_sessions s ≡ ok tt
  pub changes_ok : check_changes s ≡ ok tt
  pub resilience_ok : check_resilience s ≡ ok tt

pub validate_state_sound :
    (host : Host) (s : RunState) → validate_state host s ≡ ok tt → IsAccepted host s
unfolding validate_state
validate_state_sound host s h =
    let (_, h₀, t₀) = >>=-eq-ok (check_limits s) _ h in
    let (_, h₁, t₁) = >>=-eq-ok (check_tasks s) _ t₀ in
    let (_, h₂, t₂) = >>=-eq-ok (check_ages s) _ t₁ in
    let (_, h₃, t₃) = >>=-eq-ok (check_locks_of host s) _ t₂ in
    let (_, h₄, t₄) = >>=-eq-ok (check_tallies s) _ t₃ in
    let (_, h₅, t₅) = >>=-eq-ok (check_lifecycle s) _ t₄ in
    let (_, h₆, t₆) = >>=-eq-ok (check_sessions s) _ t₅ in
    let (_, h₇, h₈) = >>=-eq-ok (check_changes s) _ t₆ in
    record {
      limits_ok = h₀;
      tasks_ok = h₁;
      ages_ok = h₂;
      locks_ok = h₃;
      tallies_ok = h₄;
      lifecycle_ok = h₅;
      sessions_ok = h₆;
      changes_ok = h₇;
      resilience_ok = h₈;
    }

pub validate_state_complete :
    (host : Host) (s : RunState) → IsAccepted host s → validate_state host s ≡ ok tt
unfolding validate_state
validate_state_complete host s a = rw (
  a.limits_ok, a.tasks_ok, a.ages_ok, a.locks_ok, a.tallies_ok, a.lifecycle_ok, a.sessions_ok,
  a.changes_ok, a.resilience_ok,
)

pub all-append {ℓ} :
    {A : Type ℓ} (p : A → Bool) (xs ys : List A) → all p (xs ++ ys) ≡ (all p xs && all p ys)
all-append p [] ys = refl
all-append p (x ∷ xs) ys = ground (arith, all-append p xs ys)

pub resilience_counts-snoc :
    (n : ℕ) (es : List ResilienceEvent) (e : ResilienceEvent)
    → resilience_counts n es ≡ true
    → e.sequence ≡ n + length es
    → resilience_counts n (es ++ e ∷ []) ≡ true
resilience_counts-snoc n [] e h q = ground arith
resilience_counts-snoc n (x ∷ es) e h q = ground (arith, resilience_counts-snoc (suc n) es e)

pub change_ids-snoc :
    (cs : List PlanChange) (c : PlanChange) → change_ids (cs ++ c ∷ []) ≡ change_ids cs ++ c.id ∷ []
change_ids-snoc [] c = refl
change_ids-snoc (x ∷ cs) c = rw (change_ids-snoc cs c) refl

-- Ids that none exceed a number are not above it.
pub has_number_above :
    (m n : ℕ) (ns : List ℕ) → all (λ k. leb k m) ns ≡ true → m < n → has_number n ns ≡ false
has_number_above m n [] h l = refl
has_number_above m n (k ∷ ns) h l = ground (arith, has_number_above m n ns)

pub all-leb-up :
    (m n : ℕ) (ns : List ℕ) → all (λ k. leb k m) ns ≡ true → m ≤ n → all (λ k. leb k n) ns ≡ true
all-leb-up m n [] h l = refl
all-leb-up m n (k ∷ ns) h l = ground (arith, all-leb-up m n ns)

pub open_changes-append :
    (cs ds : List PlanChange) → open_changes (cs ++ ds) ≡ open_changes cs ++ open_changes ds
open_changes-append [] ds = refl
open_changes-append (c ∷ cs) ds = ground (arith, open_changes-append cs ds)

pub none_open : (ns : List ℕ) → is_only none ns ≡ true → ns ≡ []
none_open [] h = refl
none_open (n ∷ ns) h = cc

-- What was read can be written back.
pub load-saves :
    (host : Host) (file : RunState) (limits : Limits) {s : RunState}
    → load host file limits ≡ ok s
    → save host s ≡ ok s
unfolding load save
load-saves host file limits {s} h =
    let (_, valid, h₁) = >>=-eq-ok (validate_state host (with_limits limits file)) _ h in
    let same : with_limits limits file ≡ s = cc h₁ in
    let valid_s = subst (λ r. validate_state host r ≡ ok tt) same valid in rw valid_s refl

pub load-with_limits :
    (host : Host) (file : RunState) (limits : Limits) {s : RunState}
    → load host file limits ≡ ok s
    → with_limits limits file ≡ s
unfolding load
load-with_limits host file limits {s} h =
    let (_, _, h₁) = >>=-eq-ok (validate_state host (with_limits limits file)) _ h in cc h₁
