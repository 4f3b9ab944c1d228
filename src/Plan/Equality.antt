-- ===== src/Plan/Equality.antt =====
-- Equality of the plan's dataclasses (src/codex_autopilot/plan.py): field by field.
use codex_autopilot.Prelude.{
  ℕ, String, ◌≡◌, refl, sym, ap, Bool, true, false, not, ◌&&◌, Option, none, some, List, [], ◌∷◌,
  arith, eq_iff, nat_eq, ◌==◌, same_texts,
}
use codex_autopilot.Plan.{VerificationPolicy, ResourceClaim, Task, Plan}

abbrev pub same_option : Option String → Option String → Bool
same_option none none = true
same_option (some a) (some b) = a == b
same_option _ _ = false

abbrev pub same_bool : Bool → Bool → Bool
same_bool true b = b
same_bool false b = not b

unfoldable pub same_policy : VerificationPolicy → VerificationPolicy → Bool
same_policy a b =
    a.policy == b.policy
    && same_bool a.required b.required
    && same_option a.verifier_role b.verifier_role
    && nat_eq a.max_revision_attempts b.max_revision_attempts

abbrev pub same_claim : ResourceClaim → ResourceClaim → Bool
same_claim a b = a.id == b.id && a.kind == b.kind && a.target == b.target && a.access == b.access

unfoldable pub same_resources : List ResourceClaim → List ResourceClaim → Bool
same_resources [] [] = true
same_resources (a ∷ rest) (b ∷ others) = same_claim a b && same_resources rest others
same_resources _ _ = false

unfoldable pub same_task : Task → Task → Bool
unfolding same_policy same_resources
same_task a b =
    a.id == b.id
    && a.body == b.body
    && a.execution_mode == b.execution_mode
    && same_option a.reasoning b.reasoning
    && a.role == b.role
    && same_texts a.depends_on b.depends_on
    && nat_eq a.priority b.priority
    && same_policy a.verification b.verification
    && same_resources a.resources b.resources
    && same_texts a.required_capabilities b.required_capabilities

unfoldable pub same_tasks : List Task → List Task → Bool
unfolding same_task
same_tasks [] [] = true
same_tasks (a ∷ rest) (b ∷ others) = same_task a b && same_tasks rest others
same_tasks _ _ = false

unfoldable pub same_plan : Plan → Plan → Bool
unfolding same_tasks
same_plan a b =
    a.model_strategy == b.model_strategy
    && same_tasks a.tasks b.tasks
    && nat_eq a.graph_version b.graph_version
    && a.execution_strategy == b.execution_strategy
    && nat_eq a.max_parallel_workers b.max_parallel_workers
    && nat_eq a.computer_use_slots b.computer_use_slots
    && same_bool a.legacy_serial b.legacy_serial
    && same_bool a.has_goal_contract b.has_goal_contract

pub same_texts_sound : (xs ys : List String) → same_texts xs ys ≡ true → xs ≡ ys
same_texts_sound [] [] h = refl
same_texts_sound [] (y ∷ ys) h = cc
same_texts_sound (x ∷ xs) [] h = cc
same_texts_sound (x ∷ xs) (y ∷ ys) h =
    let tails = same_texts_sound xs ys (ground arith) in
    let heads = (eq_iff x y).0 (ground arith) in cc

same_option_sound : (a b : Option String) → same_option a b ≡ true → a ≡ b
same_option_sound none none h = refl
same_option_sound none (some b) h = cc
same_option_sound (some a) none h = cc
same_option_sound (some a) (some b) h = ap (λ t. some t) ((eq_iff a b).0 h)

same_bool_sound : (a b : Bool) → same_bool a b ≡ true → a ≡ b
same_bool_sound true true h = refl
same_bool_sound true false h = sym h
same_bool_sound false true h = h
same_bool_sound false false h = refl

nat_eq_sound : (m n : ℕ) → nat_eq m n ≡ true → m ≡ n
nat_eq_sound m n h = ground arith

same_policy_sound : (a b : VerificationPolicy) → same_policy a b ≡ true → a ≡ b
unfolding same_policy
same_policy_sound a b h =
    let e₁ = (eq_iff a.policy b.policy).0 (ground arith) in
    let e₂ = same_bool_sound a.required b.required (ground arith) in
    let e₃ = same_option_sound a.verifier_role b.verifier_role (ground arith) in
    let e₄ = nat_eq_sound a.max_revision_attempts b.max_revision_attempts (ground arith) in cc

same_claim_sound : (a b : ResourceClaim) → same_claim a b ≡ true → a ≡ b
same_claim_sound a b h =
    let e₁ = (eq_iff a.id b.id).0 (ground arith) in
    let e₂ = (eq_iff a.kind b.kind).0 (ground arith) in
    let e₃ = (eq_iff a.target b.target).0 (ground arith) in
    let e₄ = (eq_iff a.access b.access).0 (ground arith) in cc

same_resources_sound : (xs ys : List ResourceClaim) → same_resources xs ys ≡ true → xs ≡ ys
unfolding same_resources
same_resources_sound [] [] h = refl
same_resources_sound [] (y ∷ ys) h = cc
same_resources_sound (x ∷ xs) [] h = cc
same_resources_sound (x ∷ xs) (y ∷ ys) h =
    let heads = same_claim_sound x y (ground arith) in
    let tails = same_resources_sound xs ys (ground arith) in cc

-- Tasks that compare equal are equal.
pub same_task_sound : (a b : Task) → same_task a b ≡ true → a ≡ b
unfolding same_task
same_task_sound a b h =
    let e₁ = (eq_iff a.id b.id).0 (ground arith) in
    let e₂ = (eq_iff a.body b.body).0 (ground arith) in
    let e₃ = (eq_iff a.execution_mode b.execution_mode).0 (ground arith) in
    let e₄ = same_option_sound a.reasoning b.reasoning (ground arith) in
    let e₅ = (eq_iff a.role b.role).0 (ground arith) in
    let e₆ = same_texts_sound a.depends_on b.depends_on (ground arith) in
    let e₇ = nat_eq_sound a.priority b.priority (ground arith) in
    let e₈ = same_policy_sound a.verification b.verification (ground arith) in
    let e₉ = same_resources_sound a.resources b.resources (ground arith) in
    let e = same_texts_sound a.required_capabilities b.required_capabilities (ground arith) in cc

same_tasks_sound : (xs ys : List Task) → same_tasks xs ys ≡ true → xs ≡ ys
unfolding same_tasks
same_tasks_sound [] [] h = refl
same_tasks_sound [] (y ∷ ys) h = cc
same_tasks_sound (x ∷ xs) [] h = cc
same_tasks_sound (x ∷ xs) (y ∷ ys) h =
    let heads = same_task_sound x y (ground arith) in
    let tails = same_tasks_sound xs ys (ground arith) in cc

-- Plans that compare equal are equal.
pub same_plan_sound : (a b : Plan) → same_plan a b ≡ true → a ≡ b
unfolding same_plan
same_plan_sound a b h =
    let e₁ = (eq_iff a.model_strategy b.model_strategy).0 (ground arith) in
    let e₂ = same_tasks_sound a.tasks b.tasks (ground arith) in
    let e₃ = nat_eq_sound a.graph_version b.graph_version (ground arith) in
    let e₄ = (eq_iff a.execution_strategy b.execution_strategy).0 (ground arith) in
    let e₅ = nat_eq_sound a.max_parallel_workers b.max_parallel_workers (ground arith) in
    let e₆ = nat_eq_sound a.computer_use_slots b.computer_use_slots (ground arith) in
    let e₇ = same_bool_sound a.legacy_serial b.legacy_serial (ground arith) in
    let e₈ = same_bool_sound a.has_goal_contract b.has_goal_contract (ground arith) in cc
