-- ===== src/Ladder/Revocation/Moves.antt =====
-- Which tasks a revocation moves, and what it does to a grant (revoke_grants of
-- src/codex_autopilot/ladder_grants.py).
use codex_autopilot.Prelude.{
  String, ◌≡◌, refl, sym, ap, ◌∙◌, subst, ◌⊎◌, inl, inr, true, false, ◌||◌, Option, none, some,
  List, [], ◌∷◌, ◌++◌, arith, eq_iff, ◌==◌, if◌then◌else◌, ==_refl, Bool-cases, Option-cases, elem,
  Dict, lookup, insert, is_some, lookup-insert, ok, >>=-eq-ok, ok-injective, elem-append,
}
use codex_autopilot.Plan.{Plan}
use codex_autopilot.RunState.{RunState, RevisionBasis}
use codex_autopilot.TaskState.{value, blocked, transition_task}
use codex_autopilot.TaskState.Transitions.{transition_task_sound}
use codex_autopilot.Ladder.{append_event, hires_of}
use codex_autopilot.Ladder.Revocation.{
  Folders, TaskReturn, Incident, Progress, must_revoke, take_back_hires, without_grant, is_now,
  is_at_work, must_block, take_back, revoke_return, revoke_returns, revoke_incidents, revoke_grants,
}

-- A task was moved, is BLOCKED and was not at work; or it was not moved and has the status it had.
abbrev pub IsSettled : RunState → Progress → String → Type 0
IsSettled before p k =
    (elem k p.moved ≡ true
      × (lookup k p.state.task_states ≡ some (value blocked))
      × (is_at_work before k ≡ false))
    ⊎ (elem k p.moved ≡ false × (lookup k p.state.task_states ≡ lookup k before.task_states))

pub record IsRevoked (before : RunState) (p : Progress) : Type 0 where
  pub same_active : p.state.active_task_ids ≡ before.active_task_ids
  pub same_sessions : p.state.worker_sessions ≡ before.worker_sessions
  pub settled : (k : String) → IsSettled before p k

is_at_work_eq :
    (s t : RunState) (k : String)
    → s.active_task_ids ≡ t.active_task_ids
    → s.worker_sessions ≡ t.worker_sessions
    → is_at_work s k ≡ is_at_work t k
unfolding is_at_work
is_at_work_eq s t k active sessions = rw (active, sessions) refl

-- What the grant's removal leaves alone.
record IsAlike (s t : RunState) : Type 0 where
  same_active : s.active_task_ids ≡ t.active_task_ids
  same_sessions : s.worker_sessions ≡ t.worker_sessions
  same_states : s.task_states ≡ t.task_states

take_back_hires_lem : (e : TaskReturn) (s : RunState) → IsAlike (take_back_hires e s) s
unfolding take_back_hires
take_back_hires_lem e s = elim (Option-cases e.grant.rehires_before) [
  | inl none_kept ↦
      rw none_kept (record { same_active = refl; same_sessions = refl; same_states = refl })
  | inr (n, kept) ↦ elim (Bool-cases (is_now e.grant.rehires_now (hires_of s e.task_id))) [
    | inl now ↦
        rw (kept, now) (record { same_active = refl; same_sessions = refl; same_states = refl })
    | inr other ↦
        rw (kept, other) (record { same_active = refl; same_sessions = refl; same_states = refl })
  ]
]

without_grant_lem :
    (k : String) (basis : Option RevisionBasis) (s : RunState) → IsAlike (without_grant k basis s) s
unfolding without_grant
without_grant_lem k none s = record { same_active = refl; same_sessions = refl; same_states = refl }
without_grant_lem k (some basis) s = elim (Bool-cases (is_some basis.granted_on)) [
  | inl granted ↦
      rw granted (record { same_active = refl; same_sessions = refl; same_states = refl })
  | inr none_granted ↦
      rw none_granted (record { same_active = refl; same_sessions = refl; same_states = refl })
]

take_back_lem : (e : TaskReturn) (s : RunState) → IsAlike (take_back e s) s
unfolding take_back
take_back_lem e s =
    let tallied = take_back_hires e s in
    let first = take_back_hires_lem e s in
    let second =
      without_grant_lem e.task_id (lookup e.task_id tallied.task_revision_basis) tallied in
    record {
      same_active = second.same_active ∙ first.same_active;
      same_sessions = second.same_sessions ∙ first.same_sessions;
      same_states = second.same_states ∙ first.same_states;
    }

-- The map when one more task is moved.
settled_moved :
    (before : RunState) (p : Progress) (j k : String) {states : Dict String}
    → is_at_work before j ≡ false
    → states ≡ insert j (value blocked) p.state.task_states
    → IsSettled before p k
    → (elem k (p.moved ++ j ∷ []) ≡ true
        × (lookup k states ≡ some (value blocked))
        × (is_at_work before k ≡ false))
      ⊎ (elem k (p.moved ++ j ∷ []) ≡ false × (lookup k states ≡ lookup k before.task_states))
settled_moved before p j k {states} rests written settled =
    let now : lookup k states
        ≡ (if j == k then some (value blocked) else lookup k p.state.task_states) =
      ap (lookup k) written ∙ lookup-insert j k (value blocked) p.state.task_states in
    let listed : elem k (p.moved ++ j ∷ []) ≡ (elem k p.moved || elem k (j ∷ [])) =
      elem-append k p.moved (j ∷ []) in
    elim (Bool-cases (j == k)) [
      | inl same ↦
          let j_is_k = (eq_iff j k).0 same in
          inl (
            listed ∙ ground (arith, same, j_is_k, ==_refl k),
            now ∙ rw same refl,
            subst (λ i. is_at_work before i ≡ false) j_is_k rests,
          )
      | inr other ↦
          let away : elem k (p.moved ++ j ∷ []) ≡ elem k p.moved = listed ∙ ground (arith, other) in
          elim settled [
            | inl (was, held, idle) ↦ inl (away ∙ was, now ∙ rw other held, idle)
            | inr (never, kept) ↦ inr (away ∙ never, now ∙ rw other kept)
          ]
    ]

must_block_idle :
    (plan : Plan) (s : RunState) (e : TaskReturn)
    → must_block plan s e ≡ true
    → is_at_work s e.task_id ≡ false
unfolding must_block
must_block_idle plan s e h = ground arith

block_written :
    (plan : Plan) (states : Dict String) (k : String) {after : Dict String}
    → transition_task plan states k (value blocked) ≡ ok after
    → after ≡ insert k (value blocked) states
block_written plan states k h =
    let moved = transition_task_sound plan states k (value blocked) h in
    moved.written ∙ ap (λ v. insert k v states) (sym moved.named)

revoke_return_lem :
    (plan : Plan) (reason at : String) (incident : Incident) (e : TaskReturn) (before : RunState)
    (p : Progress) {q : Progress}
    → IsRevoked before p
    → revoke_return plan reason at incident e p ≡ ok q
    → IsRevoked before q
unfolding revoke_return append_event
revoke_return_lem plan reason at incident e before p {q} so_far h =
    let taken = take_back e p.state in
    let alike = take_back_lem e p.state in
    let (states, moving, h₁) =
      >>=-eq-ok
        (if must_block plan taken e
          then transition_task plan taken.task_states e.task_id (value blocked)
          else ok taken.task_states)
        _ h in
    let active = alike.same_active ∙ so_far.same_active in
    let sessions = alike.same_sessions ∙ so_far.same_sessions in
    subst (IsRevoked before) (ok-injective h₁) (record {
      same_active = active;
      same_sessions = sessions;
      settled = λ k. elim (Bool-cases (must_block plan taken e)) [
        | inl moves ↦
            let written : states ≡ insert e.task_id (value blocked) p.state.task_states =
              block_written plan taken.task_states e.task_id (rw moves at moving)
              ∙ ap (insert e.task_id (value blocked)) alike.same_states in
            let idle : is_at_work before e.task_id ≡ false =
              sym (is_at_work_eq taken before e.task_id active sessions)
              ∙ must_block_idle plan taken e moves in
            rw moves (settled_moved before p e.task_id k idle written (so_far.settled k))
        | inr stays ↦
            let kept : states ≡ p.state.task_states =
              sym (ok-injective (rw stays at moving)) ∙ alike.same_states in
            rw (stays, kept) (so_far.settled k)
      ];
    })

module _ (there : Folders) (plan : Plan) (gone : List String) (reason at : String)
    (before : RunState) where
  revoke_returns_lem :
      (incident : Incident) (es : List TaskReturn) (p : Progress) {q : Progress}
      → IsRevoked before p
      → revoke_returns there plan gone reason at incident es p ≡ ok q
      → IsRevoked before q
  unfolding revoke_returns
  revoke_returns_lem incident [] p {q} so_far h = subst (IsRevoked before) (ok-injective h) so_far
  revoke_returns_lem incident (e ∷ es) p {q} so_far h =
      let (next, h₁, h₂) =
        >>=-eq-ok
          (if must_revoke there gone incident e
            then revoke_return plan reason at incident e p
            else ok p)
          _ h in
      let then_so : IsRevoked before next = elim (Bool-cases (must_revoke there gone incident e)) [
        | inl goes ↦ revoke_return_lem plan reason at incident e before p so_far (rw goes at h₁)
        | inr stays ↦ subst (IsRevoked before) (ok-injective (rw stays at h₁)) so_far
      ] in
      revoke_returns_lem incident es next then_so h₂

  revoke_incidents_lem :
      (xs : List Incident) (p : Progress) {q : Progress}
      → IsRevoked before p
      → revoke_incidents there plan gone reason at xs p ≡ ok q
      → IsRevoked before q
  unfolding revoke_incidents
  revoke_incidents_lem [] p {q} so_far h = subst (IsRevoked before) (ok-injective h) so_far
  revoke_incidents_lem (x ∷ xs) p {q} so_far h =
      let (next, h₁, h₂) = >>=-eq-ok (revoke_returns there plan gone reason at x x.returns p) _ h in
      revoke_incidents_lem xs next (revoke_returns_lem x x.returns p so_far h₁) h₂

-- If the revocation returns, every task it reports is BLOCKED and was not at work, every other task
-- has the status it had, and the active tasks and the sessions are the same.
pub revoke_grants-IsRevoked :
    (there : Folders) (plan : Plan) (gone : List String) (reason at : String) (before : RunState)
    (store : List Incident) {p : Progress}
    → revoke_grants there plan gone reason at before store ≡ ok p
    → IsRevoked before p
unfolding revoke_grants
revoke_grants-IsRevoked there plan gone reason at before store {p} h =
    revoke_incidents_lem there plan gone reason at before store
      (record { state = before; store = store; moved = [] })
      (record { same_active = refl; same_sessions = refl; settled = λ k. inr (refl, refl) }) h
