-- ===== src/Scheduler/Ready/Ages.antt =====
-- The logical ages of the READY tasks: one each, all different, and kept while a task stays READY.
use codex_autopilot.Prelude.{
  ℕ, ◌+◌, ◌≤◌, ◌<◌, String, ◌≡◌, subst, inl, inr, true, none, some, List, [], ◌∷◌, arith, eq_iff,
  ◌==◌, if◌then◌else◌, Bool-cases, Option-cases, All, elem, Dict, lookup, keys, is_some,
  lookup-insert, lookup-insert_self, elem-keys, ok, >>=-eq-ok, All-of_elem,
}
use codex_autopilot.Plan.{Plan}
use codex_autopilot.RunState.{RunState}
use codex_autopilot.PlanGate.{require_plan_verified}
use codex_autopilot.TaskState.{validate_task_states}
use codex_autopilot.Scheduler.Ready.{
  kept_ages, give_age, give_ages, reconciled, reconcile_ready_tasks, validate_scheduler_state,
  compute_ready_task_ids,
}

-- No age is beyond the counter, and no two tasks have the same age.
pub record IsAged (ages : Dict ℕ) (sequence : ℕ) : Type 0 where
  pub bounded : (k : String) (a : ℕ) → lookup k ages ≡ some a → a ≤ sequence
  pub apart : (j k : String) (a : ℕ) → lookup j ages ≡ some a → lookup k ages ≡ some a → j ≡ k

lookup-kept_ages :
    (ready_ids : List String) (m : Dict ℕ) (k : String)
    → lookup k (kept_ages ready_ids m) ≡ (if elem k ready_ids then lookup k m else none)
unfolding kept_ages lookup
lookup-kept_ages ready_ids [] k = ground arith
lookup-kept_ages ready_ids ((j, a) ∷ m) k =
    ground (arith, lookup-kept_ages ready_ids m k, eq_iff j k)

kept_back :
    (ready_ids : List String) (m : Dict ℕ) (k : String) (a : ℕ)
    → lookup k (kept_ages ready_ids m) ≡ some a
    → lookup k m ≡ some a
kept_back ready_ids m k a h = ground (arith, lookup-kept_ages ready_ids m k)

kept_ages-IsAged :
    (ready_ids : List String) (m : Dict ℕ) (n : ℕ) → IsAged m n → IsAged (kept_ages ready_ids m) n
kept_ages-IsAged ready_ids m n v = record {
  bounded = λ k a h. v.bounded k a (kept_back ready_ids m k a h);
  apart = λ j k a h g. v.apart j k a (kept_back ready_ids m j a h) (kept_back ready_ids m k a g);
}

give_age-IsAged :
    (k : String) (m : Dict ℕ) (n : ℕ)
    → IsAged m n
    → IsAged (give_age k (m, n)).0 (give_age k (m, n)).1
unfolding give_age
give_age-IsAged k m n v = elim (Bool-cases (elem k (keys m))) [
  | inl old ↦ rw old v
  | inr new ↦ rw new (record {
    bounded = λ j a h. ground (arith, lookup-insert k j (n + 1) m, v.bounded j a);
    apart = λ i j a h g. ground (
      arith,
      lookup-insert k i (n + 1) m,
      lookup-insert k j (n + 1) m,
      v.apart i j a,
      v.bounded i a,
      v.bounded j a,
      eq_iff k i,
      eq_iff k j,
    );
  })
]

give_age_keeps :
    (k : String) (m : Dict ℕ) (n : ℕ) (j : String) (a : ℕ)
    → lookup j m ≡ some a
    → lookup j (give_age k (m, n)).0 ≡ some a
unfolding give_age
give_age_keeps k m n j a h = elim (Bool-cases (elem k (keys m))) [
  | inl old ↦ rw old h
  | inr new ↦ rw new (ground (arith, lookup-insert k j (n + 1) m, elem-keys k m, eq_iff k j))
]

give_age_new :
    (k : String) (m : Dict ℕ) (n : ℕ) (j : String) (b : ℕ)
    → lookup j m ≡ none
    → lookup j (give_age k (m, n)).0 ≡ some b
    → n < b
unfolding give_age
give_age_new k m n j b h g = ground (arith, lookup-insert k j (n + 1) m)

give_age_has : (k : String) (m : Dict ℕ) (n : ℕ) → is_some (lookup k (give_age k (m, n)).0) ≡ true
unfolding give_age
give_age_has k m n = ground (arith, lookup-insert_self k (n + 1) m, elem-keys k m)

give_age_counts : (k : String) (m : Dict ℕ) (n : ℕ) → n ≤ (give_age k (m, n)).1
unfolding give_age
give_age_counts k m n = ground arith

-- What giving ages does to a table of ages and its counter.
record IsGiven (ks : List String) (m : Dict ℕ) (n : ℕ) (out : Dict ℕ × ℕ) : Type 0 where
  aged : IsAged m n → IsAged out.0 out.1
  keeps : (j : String) (a : ℕ) → lookup j m ≡ some a → lookup j out.0 ≡ some a
  newer : (j : String) (b : ℕ) → lookup j m ≡ none → lookup j out.0 ≡ some b → n < b
  has : (k : String) → elem k ks ≡ true → is_some (lookup k out.0) ≡ true

keeps_some :
    (m m' : Dict ℕ) (k : String)
    → ((j : String) (a : ℕ) → lookup j m ≡ some a → lookup j m' ≡ some a)
    → is_some (lookup k m) ≡ true
    → is_some (lookup k m') ≡ true
keeps_some m m' k keeps h = elim (Option-cases (lookup k m)) [
  | inl absent ↦ ground arith
  | inr found ↦ ground (arith, keeps k found.0 found.1)
]

give_ages-IsGiven : (ks : List String) (m : Dict ℕ) (n : ℕ) → IsGiven ks m n (give_ages ks (m, n))
unfolding give_ages
give_ages-IsGiven [] m n = record {
  aged = λ v. v;
  keeps = λ j a h. h;
  newer = λ j b h g. cc;
  has = λ k h. cc;
}
give_ages-IsGiven (k ∷ ks) m n =
    let (m', n') = give_age k (m, n) in
    let rest = give_ages-IsGiven ks m' n' in
    record {
      aged = λ v. rest.aged (give_age-IsAged k m n v);
      keeps = λ j a h. rest.keeps j a (give_age_keeps k m n j a h);
      newer = λ j b h g. elim (Option-cases (lookup j m')) [
        | inl absent ↦ ground (arith, rest.newer j b absent g, give_age_counts k m n)
        | inr found ↦
            ground (arith, give_age_new k m n j found.0 h found.1, rest.keeps j found.0 found.1)
      ];
      has = λ j h. elim (Bool-cases (k == j)) [
        | inl same ↦
            keeps_some m' (give_ages ks (m', n')).0 j rest.keeps
              (ground (arith, eq_iff k j, give_age_has k m n))
        | inr other ↦ rest.has j (ground arith)
      ];
    }

-- What reconciliation does to the ages: distinct and counted as before, one for each READY task, an
-- old one kept, and a new one greater than every number given before.
pub record HasAges (before after : RunState) (ready_ids : List String) : Type 0 where
  pub aged :
      IsAged before.task_ready_since before.scheduler_sequence
      → IsAged after.task_ready_since after.scheduler_sequence
  pub covered : All (λ k. is_some (lookup k after.task_ready_since) ≡ true) ready_ids
  pub kept :
      (k : String) (a : ℕ)
      → elem k ready_ids ≡ true
      → lookup k before.task_ready_since ≡ some a
      → lookup k after.task_ready_since ≡ some a
  pub younger :
      (k : String) (b : ℕ)
      → lookup k before.task_ready_since ≡ none
      → lookup k after.task_ready_since ≡ some b
      → before.scheduler_sequence < b

reconciled-HasAges :
    (plan : Plan) (state : RunState) (m : Dict String) (eligible : List String)
    → HasAges state (reconciled plan state m eligible).0 (reconciled plan state m eligible).1
unfolding reconciled
reconciled-HasAges plan state m eligible =
    let ready_ids = (reconciled plan state m eligible).1 in
    let old = kept_ages ready_ids state.task_ready_since in
    let given = give_ages-IsGiven ready_ids old state.scheduler_sequence in
    record {
      aged = λ v.
          given.aged (kept_ages-IsAged ready_ids state.task_ready_since state.scheduler_sequence v);
      covered =
          All-of_elem
            (λ k. is_some (lookup k (give_ages ready_ids (old, state.scheduler_sequence)).0) ≡ true)
            ready_ids given.has;
      kept = λ k a listed h.
          given.keeps k a (ground (arith, lookup-kept_ages ready_ids state.task_ready_since k));
      younger = λ k b h g.
          given.newer k b (ground (arith, lookup-kept_ages ready_ids state.task_ready_since k)) g;
    }

-- A reconciliation that is accepted gives every READY task an age and keeps the age of one that had
-- it; a new age is greater than every sequence number given before; and ages that were distinct and
-- counted by the sequence number stay so.
pub reconcile_ready_tasks-HasAges :
    (digest : Plan → String) (plan : Plan) (state : RunState) {after : RunState}
    {ready_ids : List String}
    → reconcile_ready_tasks digest plan state ≡ ok (after, ready_ids)
    → HasAges state after ready_ids
unfolding reconcile_ready_tasks
reconcile_ready_tasks-HasAges digest plan state {after} {ready_ids} h =
    let (_, _, h₁) = >>=-eq-ok (require_plan_verified digest plan state.plan_verification) _ h in
    let (_, _, h₂) = >>=-eq-ok (validate_scheduler_state plan state) _ h₁ in
    let (m, checked, h₃) = >>=-eq-ok (validate_task_states plan state.task_states true) _ h₂ in
    let (eligible, computed, h₄) = >>=-eq-ok (compute_ready_task_ids plan m) _ h₃ in
    let same_pair : reconciled plan state m eligible ≡ (after, ready_ids) = cc in
    subst (λ p. HasAges state p.0 p.1) same_pair (reconciled-HasAges plan state m eligible)
