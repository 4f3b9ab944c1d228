-- ===== src/Ladder/Grants.antt =====
-- What a fresh hire at the top of the ladder grants.
use native.Mathlib.Nat.{zero-mul, lt-mul-div-succ, mul-div-le, mul-le-mul_left}
use codex_autopilot.Prelude.{
  ℕ, ◌+◌, ◌*◌, ◌/◌, ◌≤◌, ◌<◌, max, String, ◌≡◌, refl, sym, ◌∙◌, subst, ◌⊎◌, inl, inr, true, false,
  not, none, ltb, some, List, [], ◌∷◌, arith, leb, Bool-cases, lookup, lookup-insert_self, ok, err,
  is_empty, same_texts,
}
use codex_autopilot.Plan.{Task, Plan, find_task}
use codex_autopilot.RunState.{RunState, RevisionBasis}
use codex_autopilot.Ladder.{
  premises_changed, recorded_depends_on, used_of, hires_of, has_budget, grant_fresh_hire,
}

-- The tally after a grant: the ladder finds a budget where a revision is declared, and none where
-- zero is; and no more than the budget of one hire, unless the hires before the grant gave more.
pub record IsGranted (plan : Plan) (task : Task) (before after : RunState) : Type 0 where
  pub same_used : used_of after task.id ≡ used_of before task.id
  pub has_attempt :
      has_budget task (used_of after task.id) (hires_of after task.id)
      ≡ ltb 0 task.verification.max_revision_attempts
  pub at_most_one_budget :
      (hires_of after task.id ≡ hires_of before task.id)
      ⊎ (max 1 task.verification.max_revision_attempts * hires_of after task.id
          ≤ used_of after task.id)

not_same : (xs : List String) → is_empty xs ≡ false → not (same_texts [] xs) ≡ true
not_same [] h = absurd (cc h)
not_same (x ∷ xs) h = refl

ltb_zero : (n : ℕ) → ltb n 0 ≡ false
ltb_zero n = ground arith

has_budget_of :
    (task : Task) (used hires : ℕ)
    → used < task.verification.max_revision_attempts * (hires + 1)
    → has_budget task used hires ≡ true
has_budget_of task used hires h = ground arith

no_budget :
    (task : Task) (used hires : ℕ)
    → task.verification.max_revision_attempts ≡ 0
    → has_budget task used hires ≡ false
no_budget task used hires none_declared = rw (none_declared, zero-mul (hires + 1)) (ltb_zero used)

module _ (plan : Plan) (state : RunState) (task : Task) (grounds : String)
    (found : find_task task.id plan.tasks ≡ some task) where
  abbrev budget : ℕ
  budget = max 1 task.verification.max_revision_attempts

  abbrev spent : ℕ
  spent = used_of state task.id

  granted_hires :
      {after : RunState}
      → grant_fresh_hire plan state task.id grounds ≡ ok after
      → (hires_of after task.id ≡ max (hires_of state task.id) (spent / budget))
        × (used_of after task.id ≡ spent)
  unfolding grant_fresh_hire
  granted_hires {after} h =
      let out = rw found at h in
      subst
        (λ r. elim r [
          | ok s ↦
              (hires_of s task.id ≡ max (hires_of state task.id) (spent / budget))
              × (used_of s task.id ≡ spent)
          | err e ↦ Unit
        ])
        out
        (rw
          (lookup-insert_self task.id (max (hires_of state task.id) (spent / budget))
            state.task_rehires)
          (refl, refl))

  -- If the task is the plan's and the grant returns, the ladder's own test finds an attempt left if
  -- at least one revision is declared, and none if zero is; the tally of revisions is the same; and
  -- the hires are as before or give no more than the budget of one hire beyond what is spent, where
  -- a declared zero counts as one.
  pub grant_fresh_hire-IsGranted :
      {after : RunState}
      → grant_fresh_hire plan state task.id grounds ≡ ok after
      → IsGranted plan task state after
  grant_fresh_hire-IsGranted {after} h =
      let (hires, used) = granted_hires h in
      let one : 0 < budget = omega arith in
      let next : spent < budget * (spent / budget + 1) = lt-mul-div-succ spent one in
      let wide : budget * (spent / budget + 1) ≤ budget * (hires_of after task.id + 1) =
        mul-le-mul_left budget (omega (arith, hires)) in
      record {
        same_used = used;
        has_attempt = elim (Bool-cases (ltb 0 task.verification.max_revision_attempts)) [
          | inl declared ↦
              let same : budget ≡ task.verification.max_revision_attempts =
                ground (arith, declared) in
              has_budget_of task (used_of after task.id) (hires_of after task.id) (
                subst (λ b. used_of after task.id < b * (hires_of after task.id + 1)) same
                  (omega (arith, next, wide, used)))
              ∙ sym declared
          | inr undeclared ↦
              no_budget task (used_of after task.id) (hires_of after task.id)
                (ground (arith, undeclared))
              ∙ sym undeclared
        ];
        at_most_one_budget = elim (Bool-cases (leb (spent / budget) (hires_of state task.id))) [
          | inl enough ↦ inl (ground (arith, hires))
          | inr short ↦
              let e : hires_of after task.id ≡ spent / budget = ground (arith, hires) in
              inr (rw (e, used) (mul-div-le spent budget))
        ];
      }

  -- If the task is the plan's, rests on some task and has no recorded premises, its premises do not
  -- count as changed before a grant, and count as changed after it.
  pub grant_fresh_hire_unrecorded :
      {after : RunState}
      → lookup task.id state.task_revision_basis ≡ none
      → is_empty task.depends_on ≡ false
      → grant_fresh_hire plan state task.id grounds ≡ ok after
      → (premises_changed (lookup task.id state.task_revision_basis) task.depends_on ≡ false)
        × (premises_changed (lookup task.id after.task_revision_basis) task.depends_on ≡ true)
  unfolding grant_fresh_hire premises_changed recorded_depends_on
  grant_fresh_hire_unrecorded {after} no_basis rests h =
      let blank : RevisionBasis = record {
        graph_version = none;
        depends_on = none;
        granted_on = some grounds;
      } in
      let out = rw (found, no_basis) at h in
      (
        rw no_basis refl,
        subst
            (λ r. elim r [
              | ok s ↦
                  premises_changed (lookup task.id s.task_revision_basis) task.depends_on ≡ true
              | err e ↦ Unit
            ])
            out
            (rw (lookup-insert_self task.id blank state.task_revision_basis)
              (not_same task.depends_on rests)),
      )
