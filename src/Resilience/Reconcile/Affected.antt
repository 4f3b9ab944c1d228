-- ===== src/Resilience/Reconcile/Affected.antt =====
-- The affected tasks are closed under "depends on an affected task" (reconcile_plan_change_state of
-- src/codex_autopilot/resilience.py), and the rounds given are enough to find them all.
use codex_autopilot.Prelude.{
  ℕ, zero, suc, ◌+◌, ◌≤◌, ◌<◌, String, ◌≡◌, refl, sym, ap, subst, ◌⊎◌, inl, inr, true, false, not,
  List, [], ◌∷◌, arith, eq_iff, ◌==◌, if◌then◌else◌, ==_refl, Bool-cases, length, filter_by, All,
  All-map, elem, Dict, lookup, All-lookup, ok, or_raise, >>=-eq-ok, or_raise-eq-ok,
  length-filter_by-le, All-of_elem, key_error,
}
use codex_autopilot.Plan.{Task, Plan, ids}
use codex_autopilot.PlanGraph.{no_dependents, add_dependents}
use codex_autopilot.Resilience.Reconcile.{add_children, spread, affected_tasks}
use codex_autopilot.PlanGraph.Children.{
  IsChild, HasChildrenIn, add_dependents-adds, no_dependents-HasChildrenIn,
  add_dependents-HasChildrenIn,
}

-- How many of the names are not affected yet.
abbrev left : List String → List String → ℕ
left names affected = length (filter_by (λ k. not (elem k affected)) names)

left_mono :
    (names affected : List String) (c : String) → left names (c ∷ affected) ≤ left names affected
left_mono [] affected c = omega arith
left_mono (k ∷ names) affected c = ground (arith, left_mono names affected c)

left_less :
    (names affected : List String) (c : String)
    → elem c names ≡ true
    → elem c affected ≡ false
    → left names (c ∷ affected) < left names affected
left_less [] affected c h fresh = cc
left_less (k ∷ names) affected c h fresh = elim (Bool-cases (k == c)) [
  | inl same ↦
      let is_c = (eq_iff k c).0 same in
      let fresh_k : elem k affected ≡ false =
        subst (λ j. elem j affected ≡ false) (sym is_c) fresh in
      ground (arith, left_mono names affected c, eq_iff c k, is_c)
  | inr other ↦
      ground (arith, left_less names affected c (rw other at h) fresh, left_mono names affected c)
]

-- What adding the children of a task does to the affected tasks and to the frontier.
record IsGrown (names children affected frontier : List String) (out : List String × List String)
    : Type 0 where
  kept : (k : String) → elem k affected ≡ true → elem k out.0 ≡ true
  added : (k : String) → elem k children ≡ true → elem k out.0 ≡ true
  new_waits : (k : String) → elem k out.0 ≡ true → (elem k affected ≡ true) ⊎ (elem k out.1 ≡ true)
  waits : (k : String) → elem k frontier ≡ true → elem k out.1 ≡ true
  bounded : length out.1 + left names out.0 ≤ length frontier + left names affected

grow :
    (names children affected frontier : List String)
    → All (λ c. elem c names ≡ true) children
    → IsGrown names children affected frontier (add_children children affected frontier)
grow names [] affected frontier h = record {
  kept = λ k e. e;
  added = λ k e. absurd (cc e);
  new_waits = λ k e. inl e;
  waits = λ k e. e;
  bounded = omega arith;
}
grow names (c ∷ cs) affected frontier h = elim (Bool-cases (elem c affected)) [
  | inl seen ↦
      let g = grow names cs affected frontier h.1 in
      rw seen (record {
        kept = g.kept;
        added = λ k e. elim (Bool-cases (c == k)) [
          | inl same ↦ g.kept k (subst (λ j. elem j affected ≡ true) ((eq_iff c k).0 same) seen)
          | inr other ↦ g.added k (rw other at e)
        ];
        new_waits = g.new_waits;
        waits = g.waits;
        bounded = g.bounded;
      })
  | inr fresh ↦
      let g = grow names cs (c ∷ affected) (c ∷ frontier) h.1 in
      rw fresh (record {
        kept = λ k e. g.kept k (ground arith);
        added = λ k e. elim (Bool-cases (c == k)) [
          | inl same ↦ g.kept k (rw same refl)
          | inr other ↦ g.added k (rw other at e)
        ];
        new_waits = λ k e. elim (g.new_waits k e) [
          | inr there ↦ inr there
          | inl now ↦ elim (Bool-cases (c == k)) [
            | inl same ↦ inr (g.waits k (rw same refl))
            | inr other ↦ inl (rw other at now)
          ]
        ];
        waits = λ k e. g.waits k (ground arith);
        bounded = omega (arith, g.bounded, left_less names affected c h.0 fresh);
      })
]

-- All the children of `parent` are affected.
abbrev pub Covers : Dict (List String) → List String → String → Type 0
Covers D affected parent = (child : String) → IsChild D parent child → elem child affected ≡ true

-- An affected task waits for its round, or its children are affected.
abbrev IsUnderWay : Dict (List String) → List String → List String → Type 0
IsUnderWay D affected frontier =
    (k : String) → elem k affected ≡ true → (elem k frontier ≡ true) ⊎ Covers D affected k

pub record IsClosed (D : Dict (List String)) (start affected : List String) : Type 0 where
  pub starts : (k : String) → elem k start ≡ true → elem k affected ≡ true
  pub covers : (k : String) → elem k affected ≡ true → Covers D affected k

spread-IsClosed :
    (names : List String) (fuel : ℕ) (D : Dict (List String)) (affected frontier : List String)
    {out : List String}
    → HasChildrenIn names D
    → length frontier + left names affected ≤ fuel
    → IsUnderWay D affected frontier
    → spread fuel D affected frontier ≡ ok out
    → IsClosed D affected out
unfolding spread
spread-IsClosed names fuel D affected [] {out} named bound way h =
    let same : affected ≡ out = cc h in
    subst (IsClosed D affected) same (record {
      starts = λ k e. e;
      covers = λ k e. elim (way k e) [ inl waits ↦ absurd (cc waits) | inr covered ↦ covered ];
    })
spread-IsClosed names zero D affected (p ∷ frontier) named bound way h =
    absurd (omega (arith, bound))
spread-IsClosed names (suc fuel) D affected (p ∷ frontier) named bound way h =
    let (children, found, h₁) = >>=-eq-ok (or_raise (lookup p D) (key_error p)) _ h in
    let at_p = or_raise-eq-ok (lookup p D) (key_error p) found in
    let children_named =
      All-lookup (λ entry. All (λ c. elem c names ≡ true) entry.1) D p children named at_p in
    let g = grow names children affected frontier children_named in
    let next = add_children children affected frontier in
    let next_way : IsUnderWay D next.0 next.1 = (λ k e. elim (g.new_waits k e) [
      | inr waits ↦ inl waits
      | inl old ↦ elim (Bool-cases (p == k)) [
        | inl same ↦ inr (λ child c.
            let is_k = (eq_iff p k).0 same in
            let same_list : c.0 ≡ children = cc (c.1, at_p, is_k) in
            g.added child (subst (λ l. elem child l ≡ true) same_list c.2))
        | inr other ↦ elim (way k old) [
          | inl waits ↦ inl (g.waits k (rw other at waits))
          | inr covered ↦ inr (λ child c. g.kept child (covered child c))
        ]
      ]
    ]) in
    let rest =
      spread-IsClosed names fuel D next.0 next.1 named (omega (arith, bound, g.bounded)) next_way
        h₁ in
    record { starts = λ k e. rest.starts k (g.kept k e); covers = rest.covers }

ids-elem : (ts : List Task) → All (λ k. elem k (ids ts) ≡ true) (ids ts)
ids-elem ts = All-of_elem (λ k. elem k (ids ts) ≡ true) (ids ts) (λ k e. e)

length-ids : (ts : List Task) → length (ids ts) ≡ length ts
length-ids [] = refl
length-ids (t ∷ ts) = ap (λ n. suc n) (length-ids ts)

-- A task that depends on an affected task is affected.
abbrev pub IsDownward : List Task → List String → Type 0
IsDownward tasks affected =
    All (λ t. All (λ d. elem d affected ≡ true → elem t.id affected ≡ true) t.depends_on) tasks

pub affected_tasks-IsDownward :
    (candidate : Plan) (changed : List String) (requester : String) {affected : List String}
    → affected_tasks candidate changed requester ≡ ok affected
    → IsDownward candidate.tasks affected
      × (elem requester affected ≡ true)
      × ((k : String) → elem k changed ≡ true → elem k affected ≡ true)
unfolding affected_tasks
affected_tasks-IsDownward candidate changed requester {affected} h =
    let tasks = candidate.tasks in
    let start = if elem requester changed then changed else requester ∷ changed in
    let (D, built, h₁) = >>=-eq-ok (add_dependents tasks (no_dependents tasks [])) _ h in
    let named =
      add_dependents-HasChildrenIn (ids tasks) tasks (no_dependents tasks []) built (ids-elem tasks)
        (no_dependents-HasChildrenIn (ids tasks) tasks [] tt) in
    let closed =
      spread-IsClosed (ids tasks) (length start + length tasks) D start start named
        (omega (arith, length-filter_by-le (λ k. not (elem k start)) (ids tasks), length-ids tasks))
        (λ k e. inl e) h₁ in
    (
      All-map tasks
          (λ t children. All-map t.depends_on (λ d child e. closed.covers d e t.id child) children)
          (add_dependents-adds tasks (no_dependents tasks []) built),
      closed.starts requester (ground (arith, ==_refl requester)),
      λ k e. closed.starts k (ground arith),
    )
