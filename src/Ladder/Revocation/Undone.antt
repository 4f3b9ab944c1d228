-- ===== src/Ladder/Revocation/Undone.antt =====
-- A fresh hire that is granted and taken back (grant_fresh_hire of
-- src/codex_autopilot/revision_budget.py and revoke_grants of src/codex_autopilot/ladder_grants.py).
use codex_autopilot.Prelude.{
  ℕ, ◌/◌, max, String, ◌≡◌, refl, sym, ap, ◌∙◌, subst, inl, inr, true, Option, none, some, arith,
  eq_iff, nat_eq, ◌==◌, Bool-cases, Dict, lookup, insert, get_or, lookup-insert, lookup-insert_self,
  lookup-insert_ne, ok, or_raise, >>=-eq-ok, ok-injective,
}
use codex_autopilot.Plan.{Plan, find_task}
use codex_autopilot.RunState.{RunState, RevisionBasis}
use codex_autopilot.Ladder.{hires_of, used_of, grant_fresh_hire}
use codex_autopilot.Ladder.Revocation.{
  TaskReturn, take_back_hires, without_grant, is_now, take_back,
}

-- What taking a grant back leaves of it: each task's hires and revisions are those before the
-- grant, and nothing is recorded that granted a hire.
pub record IsUndone (before after : RunState) (k : String) : Type 0 where
  pub same_hires : (j : String) → hires_of after j ≡ hires_of before j
  pub same_revisions : after.task_revisions ≡ before.task_revisions
  pub no_grant :
      (basis : RevisionBasis)
      → lookup k after.task_revision_basis ≡ some basis
      → basis.granted_on ≡ none

twice :
    (m : Dict ℕ) (k : String) (n : ℕ) (j : String)
    → get_or 0 (lookup j (insert k (get_or 0 (lookup k m)) (insert k n m))) ≡ get_or 0 (lookup j m)
twice m k n j = elim (Bool-cases (k == j)) [
  | inl same ↦
      rw (lookup-insert k j (get_or 0 (lookup k m)) (insert k n m), same)
        (ap (λ i. get_or 0 (lookup i m)) ((eq_iff k j).0 same))
  | inr other ↦
      rw
        (
          lookup-insert_ne k j (get_or 0 (lookup k m)) (insert k n m) other,
          lookup-insert_ne k j n m other,
        )
        refl
]

abbrev granted_by : Option RevisionBasis → Option String
granted_by none = none
granted_by (some basis) = basis.granted_on

take_back_granted :
    (state : RunState) (e : TaskReturn) (n : ℕ) (basis : RevisionBasis) (grounds : String)
    → e.grant.rehires_before ≡ some (hires_of state e.task_id)
    → e.grant.rehires_now ≡ some n
    → IsUndone state
        (take_back e (record state {
          task_rehires = insert e.task_id n state.task_rehires;
          task_revision_basis =
              insert e.task_id
                (record basis { granted_on = some grounds })
                state.task_revision_basis;
        }))
        e.task_id
unfolding take_back take_back_hires without_grant is_now
take_back_granted state e n basis grounds was now =
    let k = e.task_id in
    let hires = insert k n state.task_rehires in
    let marked : RevisionBasis = record basis { granted_on = some grounds } in
    let bases = insert k marked state.task_revision_basis in
    let counted : nat_eq (get_or 0 (lookup k hires)) n ≡ true =
      ground (arith, lookup-insert_self k n state.task_rehires) in
    let same_basis : lookup k bases ≡ some marked =
      lookup-insert_self k marked state.task_revision_basis in
    rw (was, now, counted, same_basis)
      (record {
        same_hires = twice state.task_rehires k n;
        same_revisions = refl;
        no_grant = λ b held.
            ap granted_by
              (sym held ∙ lookup-insert_self k (record basis { granted_on = none }) bases);
      })

-- If a fresh hire is granted and its return keeps the numbers of the grant, then taking it back
-- leaves each task's hires and the tally of revisions as before the grant, and the task without a
-- record of a grant.
pub grant_fresh_hire-take_back :
    (plan : Plan) (state : RunState) (grounds : String) (e : TaskReturn) {granted : RunState}
    → grant_fresh_hire plan state e.task_id grounds ≡ ok granted
    → e.grant.rehires_before ≡ some (hires_of state e.task_id)
    → e.grant.rehires_now ≡ some (hires_of granted e.task_id)
    → IsUndone state (take_back e granted) e.task_id
unfolding grant_fresh_hire
grant_fresh_hire-take_back plan state grounds e {granted} h was now =
    let (task, _, h₁) = >>=-eq-ok (or_raise (find_task e.task_id plan.tasks) _) _ h in
    let n =
      max (hires_of state e.task_id)
        (used_of state e.task_id / max 1 task.verification.max_revision_attempts) in
    let basis =
      get_or (record { graph_version = none; depends_on = none; granted_on = none })
        (lookup e.task_id state.task_revision_basis) in
    subst
      (λ s.
        e.grant.rehires_now ≡ some (hires_of s e.task_id)
        → IsUndone state (take_back e s) e.task_id)
      (ok-injective h₁)
      (λ kept.
        take_back_granted state e n basis grounds was
          (kept ∙ ap (λ o. some (get_or 0 o)) (lookup-insert_self e.task_id n state.task_rehires)))
      now
