-- ===== src/Plan/Ids.antt =====
-- The map of the tasks by id (Plan.task_map).
use codex_autopilot.Prelude.{
  String, ◌≡◌, refl, subst, true, inl, inr, some, List, [], ◌∷◌, arith, Option-cases, All, elem,
  is_some, eq_iff, IsDistinct, All-map, ==_refl,
}
use codex_autopilot.Plan.{Task, ids, find_task}

-- A task is found exactly for the ids of the plan.
pub is_some-find_task : (k : String) (ts : List Task) → is_some (find_task k ts) ≡ elem k (ids ts)
unfolding find_task
is_some-find_task k [] = refl
is_some-find_task k (t ∷ ts) = ground (arith, is_some-find_task k ts)

-- The task found has the id asked for.
pub find_task-id : (k : String) (ts : List Task) {t : Task} → find_task k ts ≡ some t → t.id ≡ k
unfolding find_task
find_task-id k [] h = cc
find_task-id k (t ∷ ts) h = elim (Option-cases (find_task k ts)) [
  | inl absent ↦ ground (arith, eq_iff t.id k)
  | inr later ↦ let (u, e) = later in ground (arith, find_task-id k ts e)
]

pub find_task_of_elem :
    (k : String) (ts : List Task) → elem k (ids ts) ≡ true → (t : Task) × (find_task k ts ≡ some t)
find_task_of_elem k ts h = ground (arith, is_some-find_task k ts)

-- A fact about every task, read at the task found.
pub All-find_task {κ} :
    (P : Task → Type κ) (ts : List Task) (k : String) {t : Task}
    → All P ts
    → find_task k ts ≡ some t
    → P t
unfolding find_task
All-find_task P [] k h e = ground arith
All-find_task P (u ∷ ts) k {t} h e = elim (Option-cases (find_task k ts)) [
  | inl absent ↦ subst P (ground arith) h.0
  | inr later ↦ let (v, f) = later in All-find_task P ts k h.1 (ground arith)
]

-- Where no id stands twice, every task is the one found for its id.
pub find_task_self :
    (ts : List Task) → IsDistinct (ids ts) → All (λ t. find_task t.id ts ≡ some t) ts
unfolding find_task
find_task_self [] h = tt
find_task_self (t ∷ ts) h = (
  ground (arith, is_some-find_task t.id ts, ==_refl t.id),
  All-map ts (λ u e. ground arith) (find_task_self ts h.1),
)
