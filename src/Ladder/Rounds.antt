-- ===== src/Ladder/Rounds.antt =====
-- A task that keeps failing under an unchanged contract runs out of revisions.
use native.Mathlib.Nat.{mul-le-mul_left, mul-add, mul-one, mul-le-mul_right}
use codex_autopilot.Prelude.{
  ℕ, suc, ◌+◌, ◌*◌, ◌≤◌, max, String, ◌≡◌, refl, sym, ap, ◌∙◌, subst, inl, inr, true, false, Option,
  none, some, List, [], ◌∷◌, arith, ◌==◌, ==_refl, Bool-cases, lookup, insert, lookup-insert_self,
  ok, >>=-eq-ok, same_texts,
}
use codex_autopilot.Plan.{Task, Plan, find_task}
use codex_autopilot.Models.{next_effort_step, rung, or_first}
use codex_autopilot.Models.Efforts.{IsStepUp, next_effort_step-IsStepUp, listed-filled, rung-le}
use codex_autopilot.RunState.{RunState}
use codex_autopilot.Ladder.{
  premises_changed, recorded_depends_on, basis_for, append_event, used_of, hires_of, filled_or,
  task_effort, reset_revision_budget, block_on_exhausted_ladder, climb, has_budget, rehire,
  rehire_or_block, charge_revision, revision_round,
}

-- What the ladder reads of a task: its revisions, hires, effort and recorded premises.
pub record SameTally (task : Task) (s t : RunState) : Type 0 where
  pub same_used : used_of t task.id ≡ used_of s task.id
  pub same_hires : hires_of t task.id ≡ hires_of s task.id
  pub same_effort : lookup task.id t.task_effort ≡ lookup task.id s.task_effort
  pub same_basis : lookup task.id t.task_revision_basis ≡ lookup task.id s.task_revision_basis

-- Rounds in a row. Between two of them the run may change in any way that leaves the task's tally:
-- the revision is reserved, worked on, reviewed and sent back.
pub data Rounds (plan : Plan) (task : Task) (first : RunState) : ℕ → RunState → Type 0 where
  start : Rounds plan task first 0 first
  more :
      {n : ℕ} {now after later : RunState}
      → Rounds plan task first n now
      → revision_round plan now task ≡ ok (some after)
      → SameTally task after later
      → Rounds plan task first (suc n) later

same_texts_refl : (xs : List String) → same_texts xs xs ≡ true
same_texts_refl [] = refl
same_texts_refl (x ∷ xs) = ground (arith, same_texts_refl xs, ==_refl x)

filled_or-filled :
    (default : String) (o : Option String)
    → (default == "") ≡ false
    → (filled_or default o == "") ≡ false
filled_or-filled default none h = h
filled_or-filled default (some t) h = ground arith

effort_filled : (state : RunState) (task : Task) → (task_effort state task == "") ≡ false
unfolding task_effort
effort_filled state task =
    filled_or-filled (filled_or "medium" task.reasoning) (lookup task.id state.task_effort)
      (filled_or-filled "medium" task.reasoning refl)

module _ (plan : Plan) (task : Task) (found : find_task task.id plan.tasks ≡ some task) where
  -- The budget of one hire, where a declared zero counts as one.
  abbrev pub limit : ℕ
  limit = max 1 task.verification.max_revision_attempts

  -- The effort has climbed one rung for each hire, and the tally fits the hires so far.
  record IsTallied (base : ℕ) (state : RunState) : Type 0 where
    settled : premises_changed (lookup task.id state.task_revision_basis) task.depends_on ≡ false
    climbed : rung (task_effort state task) ≡ base + hires_of state task.id
    charged : used_of state task.id ≤ limit * (hires_of state task.id + 1)

  charged_settled :
      (state : RunState)
      → premises_changed
          (lookup task.id (charge_revision state task).task_revision_basis)
          task.depends_on
        ≡ false
  unfolding premises_changed recorded_depends_on charge_revision
  charged_settled state =
      rw
        (
          lookup-insert_self task.id (basis_for state.graph_version task.depends_on)
              state.task_revision_basis,
          same_texts_refl task.depends_on,
        )
        refl

  charged_used :
      (state : RunState) → used_of (charge_revision state task) task.id ≡ used_of state task.id + 1
  unfolding charge_revision
  charged_used state =
      rw (lookup-insert_self task.id (used_of state task.id + 1) state.task_revisions) refl

  room-step : (h : ℕ) → limit * (h + 1) + 1 ≤ limit * (h + 1 + 1)
  room-step h = rw (mul-add limit (h + 1) 1, mul-one limit) (omega arith)

  within_limit : (h used : ℕ) → has_budget task used h ≡ true → used + 1 ≤ limit * (h + 1)
  within_limit h used has =
      let wide : task.verification.max_revision_attempts * (h + 1) ≤ limit * (h + 1) =
        mul-le-mul_right (h + 1) (omega arith) in
      ground (arith, wide)

  -- What the ladder does to the tally when it lets the task go on.
  record IsLet (base : ℕ) (state next : RunState) : Type 0 where
    same_used : used_of next task.id ≡ used_of state task.id
    room : used_of state task.id + 1 ≤ limit * (hires_of next task.id + 1)
    climbed : rung (task_effort next task) ≡ base + hires_of next task.id

  climb-IsLet :
      (base : ℕ) (state : RunState) (promoted : Option String) {next : RunState}
      → IsTallied base state
      → next_effort_step (some (task_effort state task)) ≡ ok promoted
      → climb plan state task promoted ≡ ok (next, false)
      → IsLet base state next
  unfolding climb append_event task_effort
  climb-IsLet base state none {next} t step h =
      let (stopped, _, h') = >>=-eq-ok (block_on_exhausted_ladder plan state task.id) _ h in
      absurd (cc h')
  climb-IsLet base state (some e) {next} t step h =
      let up : IsStepUp (or_first (some (task_effort state task))) (some e) =
        next_effort_step-IsStepUp (some (task_effort state task)) step in
      let from : or_first (some (task_effort state task)) ≡ task_effort state task =
        rw (effort_filled state task) refl in
      let filled : (e == "") ≡ false = listed-filled e up.1 in
      let moved : next
          ≡ append_event
              (record state {
                task_rehires = insert task.id (hires_of state task.id + 1) state.task_rehires;
                task_effort = insert task.id e state.task_effort;
              })
              "task_rehired" task.id =
        cc h in
      let hires : hires_of next task.id ≡ hires_of state task.id + 1 =
        rw (moved, lookup-insert_self task.id (hires_of state task.id + 1) state.task_rehires)
          refl in
      let effort : task_effort next task ≡ e =
        rw (moved, lookup-insert_self task.id e state.task_effort, filled) refl in
      let base_rung : rung (or_first (some (task_effort state task)))
          ≡ base + hires_of state task.id =
        ap rung from ∙ t.climbed in
      record {
        same_used = rw moved refl;
        room = rw hires (omega (arith, t.charged, room-step (hires_of state task.id)));
        climbed = rw (effort, hires) (omega (arith, up.0, base_rung));
      }

  charged-IsTallied :
      (base : ℕ) (state next : RunState)
      → IsLet base state next
      → IsTallied base (charge_revision next task)
  unfolding task_effort charge_revision
  charged-IsTallied base state next l = record {
    settled = charged_settled next;
    climbed = l.climbed;
    charged = rw (charged_used next, l.same_used) l.room;
  }

  rehire-IsLet :
      (base : ℕ) (state : RunState) {next : RunState}
      → IsTallied base state
      → rehire plan state task ≡ ok (next, false)
      → IsLet base state next
  unfolding rehire
  rehire-IsLet base state {next} t h =
      elim (Bool-cases (has_budget task (used_of state task.id) (hires_of state task.id))) [
        | inl has ↦
            let same : state ≡ next = cc (rw has at h) in
            subst (IsLet base state) same (record {
              same_used = refl;
              room = within_limit (hires_of state task.id) (used_of state task.id) has;
              climbed = t.climbed;
            })
        | inr spent ↦
            let (promoted, step, h') =
              >>=-eq-ok (next_effort_step (some (task_effort state task))) _ (rw spent at h) in
            climb-IsLet base state promoted t step h'
      ]

  reset_settled :
      (state : RunState)
      → premises_changed (lookup task.id state.task_revision_basis) task.depends_on ≡ false
      → reset_revision_budget state task ≡ state
  unfolding reset_revision_budget
  reset_settled state settled = rw settled refl

  round-IsTallied :
      (base : ℕ) (state : RunState) {after : RunState}
      → IsTallied base state
      → revision_round plan state task ≡ ok (some after)
      → IsTallied base after × (used_of after task.id ≡ used_of state task.id + 1)
  unfolding revision_round rehire_or_block
  round-IsTallied base state {after} t h =
      let ((next, stopped), let_go, h') =
        >>=-eq-ok (rehire plan (reset_revision_budget state task) task) _ (rw found at h) in
      elim (Bool-cases stopped) [
        | inl stops ↦ absurd (cc (rw stops at h'))
        | inr goes ↦
            let lets : IsLet base state next =
              rehire-IsLet base state t (cc (let_go, goes, reset_settled state t.settled)) in
            let same : charge_revision next task ≡ after = cc (rw goes at h') in
            subst (λ s. IsTallied base s × (used_of s task.id ≡ used_of state task.id + 1)) same
              (
                charged-IsTallied base state next lets,
                charged_used next ∙ ap (λ n. n + 1) lets.same_used,
              )
      ]

  SameTally-IsTallied :
      (base : ℕ) (s t : RunState) → SameTally task s t → IsTallied base s → IsTallied base t
  unfolding task_effort
  SameTally-IsTallied base s t same tallied = record {
    settled = ap (λ b. premises_changed b task.depends_on) same.same_basis ∙ tallied.settled;
    climbed =
        ap (λ e. rung (filled_or (filled_or "medium" task.reasoning) e)) same.same_effort
        ∙ tallied.climbed
        ∙ ap (λ h. base + h) (sym same.same_hires);
    charged = rw (same.same_used, same.same_hires) tallied.charged;
  }

  -- A state in which the task has no revision, no hire and no recorded premises.
  pub record IsFresh (state : RunState) : Type 0 where
    pub no_basis : lookup task.id state.task_revision_basis ≡ none
    pub no_hires : hires_of state task.id ≡ 0
    pub no_revisions : used_of state task.id ≡ 0

  fresh-IsTallied :
      (state : RunState) → IsFresh state → IsTallied (rung (task_effort state task)) state
  unfolding premises_changed recorded_depends_on
  fresh-IsTallied state f = record {
    settled = rw f.no_basis refl;
    climbed = rw f.no_hires (omega arith);
    charged = rw (f.no_revisions) (omega arith);
  }

  rounds-IsTallied :
      {first after : RunState} {n : ℕ}
      → IsFresh first
      → Rounds plan task first n after
      → IsTallied (rung (task_effort first task)) after × (used_of after task.id ≡ n)
  rounds-IsTallied {first} f start = (fresh-IsTallied first f, f.no_revisions)
  rounds-IsTallied {first} {after} f (more {now = now} {after = charged} earlier step same) =
      let base = rung (task_effort first task) in
      let (t, counted) = rounds-IsTallied f earlier in
      let (t', one_more) = round-IsTallied base now t step in
      (
        SameTally-IsTallied base charged after same t',
        omega (arith, counted, one_more, same.same_used),
      )

  -- If a task of the plan starts with no revision, no hire and no recorded premises, and comes back
  -- revised round after round, where between two rounds the run changes in any way that leaves the
  -- task's own revisions, hires, effort and premises, then it is let go on at most four times the
  -- budget of one hire, where a declared zero counts as one.
  pub Rounds-le :
      {first after : RunState} {n : ℕ}
      → IsFresh first
      → Rounds plan task first n after
      → n ≤ limit * 4
  Rounds-le {first} {after} {n} f rounds =
      let (t, counted) = rounds-IsTallied f rounds in
      let top : hires_of after task.id + 1 ≤ 4 =
        omega (arith, t.climbed, rung-le (task_effort after task)) in
      let most : limit * (hires_of after task.id + 1) ≤ limit * 4 = mul-le-mul_left limit top in
      omega (arith, counted, t.charged, most)
