-- ===== src/Ladder/Examples.antt =====
-- A task that comes back revised, and a fresh hire at the top of its ladder.
use codex_autopilot.Prelude.{
  ◌*◌, ◌≤◌, ◌≡◌, refl, true, false, none, some, [], ◌∷◌, lookup, insert, ok,
}
use codex_autopilot.Plan.{Task, find_task}
use codex_autopilot.RunState.{RunState}
use codex_autopilot.Samples.{plan, task, states, state_with}
use codex_autopilot.Ladder.{
  premises_changed, recorded_depends_on, basis_for, append_event, task_effort,
  reset_revision_budget, climb, rehire, rehire_or_block, charge_revision, revision_round,
  grant_fresh_hire,
}
use codex_autopilot.Ladder.Rounds.{SameTally, start, more, limit, IsFresh, Rounds-le}
use codex_autopilot.Ladder.Grants.{
  IsGranted, grant_fresh_hire-IsGranted, grant_fresh_hire_unrecorded,
}

abbrev revised : Task
revised = task "B" ("A" ∷ []) 5

abbrev before : RunState
before = state_with (states "VERIFIED" "REVISION_REQUIRED" "READY" "WAITING") []

abbrev once : RunState
once = record before {
  task_revisions = ("B", 1) ∷ [];
  task_revision_basis = ("B", basis_for 1 ("A" ∷ [])) ∷ [];
}

program : Unit {0}
unfolding lookup insert find_task premises_changed recorded_depends_on append_event task_effort
    reset_revision_budget climb rehire rehire_or_block charge_revision revision_round
    grant_fresh_hire
program = tt

found_B : find_task "B" plan.tasks ≡ some revised
unfolding program
found_B = refl

-- The revision was worked on, reviewed and sent back.
abbrev back : RunState
back = record once { task_attempts = ("B", 2) ∷ []; scheduler_sequence = 9 }

abbrev twice : RunState
twice = record back { task_revisions = ("B", 2) ∷ [] }

round-once : revision_round plan before revised ≡ ok (some once)
unfolding program
round-once = refl

fresh : IsFresh plan revised found_B before
unfolding program
fresh = record { no_basis = refl; no_hires = refl; no_revisions = refl }

round-twice : revision_round plan back revised ≡ ok (some twice)
unfolding program
round-twice = refl

sent_back : SameTally revised once back
sent_back = record { same_used = refl; same_hires = refl; same_effort = refl; same_basis = refl }

at_rest : SameTally revised twice twice
at_rest = record { same_used = refl; same_hires = refl; same_effort = refl; same_basis = refl }

Rounds-le_example : 2 ≤ limit plan revised found_B * 4
Rounds-le_example =
    Rounds-le plan revised found_B fresh
      (more (more start round-once sent_back) round-twice at_rest)

-- Four revisions were made before their premises were recorded.
abbrev old : RunState
old = record before { task_revisions = ("B", 4) ∷ []; task_effort = ("B", "max") ∷ [] }

abbrev granted : RunState
granted = record old {
  task_rehires = ("B", 2) ∷ [];
  task_revision_basis =
      ("B", record { graph_version = none; depends_on = none; granted_on = some "owner" }) ∷ [];
}

grant-old : grant_fresh_hire plan old "B" "owner" ≡ ok granted
unfolding program
grant-old = refl

no_basis : lookup "B" old.task_revision_basis ≡ none
unfolding program
no_basis = refl

grant_fresh_hire-IsGranted_example : IsGranted plan revised old granted
grant_fresh_hire-IsGranted_example =
    grant_fresh_hire-IsGranted plan old revised "owner" found_B grant-old

grant_fresh_hire_unrecorded_example :
    (premises_changed (lookup "B" old.task_revision_basis) ("A" ∷ []) ≡ false)
    × (premises_changed (lookup "B" granted.task_revision_basis) ("A" ∷ []) ≡ true)
grant_fresh_hire_unrecorded_example =
    grant_fresh_hire_unrecorded plan old revised "owner" found_B no_basis refl grant-old
