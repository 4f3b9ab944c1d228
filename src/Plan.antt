-- ===== src/Plan.antt =====
-- The plan a run executes (src/codex_autopilot/plan.py): its tasks, their claims and verification
-- policy, and the maps by id. Text that no modelled code reads (titles, objectives, definitions of
-- done, skills) stands as one field, `body`, so that two tasks differ where the text does.
pub mod Ids
pub mod Equality
use codex_autopilot.Prelude.{
  ℕ, String, Bool, true, false, Option, none, some, List, [], ◌∷◌, map, ◌==◌, if◌then◌else◌,
}

pub record VerificationPolicy : Type 0 where
  pub policy : String
  pub required : Bool
  pub verifier_role : Option String
  pub max_revision_attempts : ℕ

pub record ResourceClaim : Type 0 where
  pub id : String
  pub kind : String
  pub target : String
  pub access : String

pub record Task : Type 0 where
  pub id : String
  pub body : String
  pub execution_mode : String
  pub reasoning : Option String
  pub role : String
  pub depends_on : List String
  pub priority : ℕ
  pub verification : VerificationPolicy
  pub resources : List ResourceClaim
  pub required_capabilities : List String

pub record Plan : Type 0 where
  pub model_strategy : String
  pub tasks : List Task
  pub graph_version : ℕ
  pub execution_strategy : String
  pub max_parallel_workers : ℕ
  pub computer_use_slots : ℕ
  pub legacy_serial : Bool
  -- plan.goal_contract is not None
  pub has_goal_contract : Bool

-- [task.id for task in tasks]
abbrev pub ids : List Task → List String
ids [] = []
ids (t ∷ ts) = t.id ∷ ids ts

-- plan.task_map.get(id). Of two tasks with one id the later stands in the map.
unfoldable pub find_task : String → List Task → Option Task
find_task k [] = none
find_task k (t ∷ ts) = elim (find_task k ts) [
  | some u ↦ some u
  | none ↦ if t.id == k then some t else none
]
