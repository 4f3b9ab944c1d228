-- ===== src/PlanGraph/Dependents.antt =====
-- The dictionaries that the dependency order starts from (topological_order of
-- src/codex_autopilot/plan_graph.py): a list of dependents has a task once for each time the task
-- names the dependency, and the count of a task is that of its dependencies.
use codex_autopilot.Prelude.{
  ℕ, ◌+◌, ◌≤◌, String, ◌≡◌, refl, sym, ◌∙◌, subst, inl, inr, Bool, true, false, Option, none, some,
  List, [], ◌∷◌, ◌++◌, arith, eq_iff, ◌==◌, if◌then◌else◌, ==_refl, Bool-cases, length, All,
  All-map, elem, IsDistinct, Dict, lookup, insert, keys, lookup-insert, lookup-insert_self,
  lookup-insert_ne, elem-keys-insert, ok, or_raise, >>=-eq-ok, or_raise-eq-ok, ok-injective,
  All-zip, count, count_distinct, key_error,
}
use codex_autopilot.Plan.{Task, ids}
use codex_autopilot.PlanGraph.{
  indegrees_from, no_dependents, add_dependent, add_dependents, is_zero, roots,
}

-- How often the tasks of an id name a dependency.
abbrev pub named_by : String → String → List Task → ℕ
named_by k d [] = 0
named_by k d (t ∷ ts) = (if t.id == k then count d t.depends_on else 0) + named_by k d ts

named_by_absent : (k d : String) (ts : List Task) → elem k (ids ts) ≡ false → named_by k d ts ≡ 0
named_by_absent k d [] h = refl
named_by_absent k d (t ∷ ts) h = ground (arith, named_by_absent k d ts)

pub tasks_named : (ts : List Task) → All (λ t. elem t.id (ids ts) ≡ true) ts
tasks_named [] = tt
tasks_named (t ∷ ts) =
    (ground (arith, ==_refl t.id), All-map ts (λ u e. ground arith) (tasks_named ts))

apart : (k j : String) (ts : List String) → elem k ts ≡ false → elem j ts ≡ true → (k == j) ≡ false
apart k j ts h g = elim (Bool-cases (k == j)) [
  | inl same ↦ absurd (cc ((eq_iff k j).0 same, h, g))
  | inr other ↦ other
]

-- With distinct ids, only the task itself counts.
pub named_by_one :
    (d : String) (ts : List Task)
    → IsDistinct (ids ts)
    → All (λ t. named_by t.id d ts ≡ count d t.depends_on) ts
named_by_one d [] h = tt
named_by_one d (t ∷ ts) h = (
  rw (==_refl t.id, named_by_absent t.id d ts h.0) (omega arith),
  All-zip ts
      (λ u named counted.
        let differs = apart t.id u.id (ids ts) h.0 named in rw differs (omega (arith, counted)))
      (tasks_named ts) (named_by_one d ts h.1),
)

-- A list of dependents after some were added.
record IsAdded (d : String) (old : List String) (D : Dict (List String)) (more : String → ℕ)
    : Type 0 where
  list : List String
  found : lookup d D ≡ some list
  counted : (k : String) → count k list ≡ count k old + more k

add_dependent-IsAdded :
    (new : String) (ds : List String) (D : Dict (List String)) {D' : Dict (List String)}
    (d : String) (old : List String)
    → add_dependent new ds D ≡ ok D'
    → lookup d D ≡ some old
    → IsAdded d old D' (λ k. if new == k then count d ds else 0)
unfolding add_dependent count
add_dependent-IsAdded new [] D d old h held =
    let same = ok-injective h in
    record {
      list = old;
      found = subst (λ (E : Dict (List String)). lookup d E ≡ some old) same held;
      counted = λ k. ground arith;
    }
add_dependent-IsAdded new (e ∷ ds) D {D'} d old h held =
    let (known, found, h₁) = >>=-eq-ok (or_raise (lookup e D) (key_error e)) _ h in
    let at_e = or_raise-eq-ok (lookup e D) (key_error e) found in
    elim (Bool-cases (e == d)) [
      | inl same ↦
          let is_d = (eq_iff e d).0 same in
          let same_list : known ≡ old = cc (at_e, held, is_d) in
          let now : lookup d (insert e (known ++ new ∷ []) D) ≡ some (known ++ new ∷ []) =
            rw (lookup-insert, same) refl in
          let rest =
            add_dependent-IsAdded new ds (insert e (known ++ new ∷ []) D) d (known ++ new ∷ []) h₁
              now in
          record {
            list = rest.list;
            found = rest.found;
            counted = λ k.
                let grown =
                  subst (λ l. count k (known ++ new ∷ []) ≡ count k l + (if new == k then 1 else 0))
                    same_list (count-snoc k known new) in
                rw same (ground (arith, rest.counted k, grown));
          }
      | inr other ↦
          let now = lookup-insert_ne e d (known ++ new ∷ []) D other ∙ held in
          let rest = add_dependent-IsAdded new ds (insert e (known ++ new ∷ []) D) d old h₁ now in
          record { list = rest.list; found = rest.found; counted = λ k. rw other (rest.counted k) }
    ]
  where
    count-snoc :
        (k : String) (xs : List String) (x : String)
        → count k (xs ++ x ∷ []) ≡ count k xs + (if x == k then 1 else 0)
    count-snoc k [] x = ground arith
    count-snoc k (y ∷ xs) x = ground (arith, count-snoc k xs x)

add_dependents-IsAdded :
    (ts : List Task) (D : Dict (List String)) {D' : Dict (List String)} (d : String)
    (old : List String)
    → add_dependents ts D ≡ ok D'
    → lookup d D ≡ some old
    → IsAdded d old D' (λ k. named_by k d ts)
unfolding add_dependents
add_dependents-IsAdded [] D d old h held =
    let same = ok-injective h in
    record {
      list = old;
      found = subst (λ (E : Dict (List String)). lookup d E ≡ some old) same held;
      counted = λ k. omega arith;
    }
add_dependents-IsAdded (t ∷ ts) D d old h held =
    let (next, first, h₁) = >>=-eq-ok (add_dependent t.id t.depends_on D) _ h in
    let one = add_dependent-IsAdded t.id t.depends_on D d old first held in
    let rest = add_dependents-IsAdded ts next d one.list h₁ one.found in
    record {
      list = rest.list;
      found = rest.found;
      counted = λ k. omega (arith, rest.counted k, one.counted k);
    }

pub no_dependents_lem :
    (ts : List Task) (D : Dict (List String)) (k : String)
    → lookup k (no_dependents ts D) ≡ (if elem k (ids ts) then some [] else lookup k D)
unfolding no_dependents
no_dependents_lem [] D k = refl
no_dependents_lem (t ∷ ts) D k =
    no_dependents_lem ts (insert t.id [] D) k ∙ elim (Bool-cases (elem k (ids ts))) [
      | inl later ↦
          rw later
            (elim (Bool-cases (t.id == k)) [ inl same ↦ rw same refl | inr other ↦ rw other refl ])
      | inr last ↦
          rw (last, lookup-insert)
            (elim (Bool-cases (t.id == k)) [ inl same ↦ rw same refl | inr other ↦ rw other refl ])
    ]

-- How often a task stands among the dependents of another is how often it names it.
pub dependents_counted :
    (ts : List Task) (c : String) (freed : List String) {D : Dict (List String)}
    → add_dependents ts (no_dependents ts []) ≡ ok D
    → IsDistinct (ids ts)
    → elem c (ids ts) ≡ true
    → lookup c D ≡ some freed
    → All (λ t. count t.id freed ≡ count c t.depends_on) ts
unfolding count
dependents_counted ts c freed {D} h once known held =
    let start : lookup c (no_dependents ts []) ≡ some [] =
      no_dependents_lem ts [] c ∙ rw known refl in
    let a = add_dependents-IsAdded ts (no_dependents ts []) c [] h start in
    let same : a.list ≡ freed = cc (a.found, held) in
    All-map ts
      (λ t one.
        subst (λ l. count t.id l ≡ count c t.depends_on) same (omega (arith, a.counted t.id, one)))
      (named_by_one c ts once)

pub dependents_known :
    (ts : List Task) (c : String) {D : Dict (List String)}
    → add_dependents ts (no_dependents ts []) ≡ ok D
    → elem c (ids ts) ≡ true
    → (freed : List String) × (lookup c D ≡ some freed)
dependents_known ts c {D} h known =
    let start : lookup c (no_dependents ts []) ≡ some [] =
      no_dependents_lem ts [] c ∙ rw known refl in
    let a = add_dependents-IsAdded ts (no_dependents ts []) c [] h start in (a.list, a.found)

indegrees_other :
    (ts : List Task) (I : Dict (Option ℕ)) (k : String)
    → elem k (ids ts) ≡ false
    → lookup k (indegrees_from ts I) ≡ lookup k I
unfolding indegrees_from
indegrees_other [] I k h = refl
indegrees_other (t ∷ ts) I k h =
    indegrees_other ts (insert t.id (some (length t.depends_on)) I) k (ground arith)
    ∙ lookup-insert_ne t.id k (some (length t.depends_on)) I (ground arith)

pub indegrees_lem :
    (ts : List Task) (I : Dict (Option ℕ))
    → IsDistinct (ids ts)
    → All (λ t. lookup t.id (indegrees_from ts I) ≡ some (some (length t.depends_on))) ts
unfolding indegrees_from
indegrees_lem [] I h = tt
indegrees_lem (t ∷ ts) I h =
    let I₁ = insert t.id (some (length t.depends_on)) I in
    (
      indegrees_other ts I₁ t.id h.0 ∙ lookup-insert_self t.id (some (length t.depends_on)) I,
      indegrees_lem ts I₁ h.1,
    )

insert-IsDistinct :
    (k : String) (v : Option ℕ) (m : Dict (Option ℕ))
    → IsDistinct (keys m)
    → IsDistinct (keys (insert k v m))
unfolding insert
insert-IsDistinct k v [] h = (refl, tt)
insert-IsDistinct k v ((j, w) ∷ m) h = elim (Bool-cases (j == k)) [
  | inl same ↦ rw same (subst (λ i. elem i (keys m) ≡ false) ((eq_iff j k).0 same) h.0, h.1)
  | inr other ↦ rw other (
    ground (arith, elem-keys-insert k j v m, h.0, eq_iff k j, eq_iff j k),
    insert-IsDistinct k v m h.1,
  )
]

pub indegrees-IsDistinct :
    (ts : List Task) (I : Dict (Option ℕ))
    → IsDistinct (keys I)
    → IsDistinct (keys (indegrees_from ts I))
unfolding indegrees_from
indegrees-IsDistinct [] I h = h
indegrees-IsDistinct (t ∷ ts) I h =
    indegrees-IsDistinct ts (insert t.id (some (length t.depends_on)) I)
      (insert-IsDistinct t.id (some (length t.depends_on)) I h)

abbrev pub zero_at : Option (Option ℕ) → Bool
zero_at none = false
zero_at (some n) = is_zero n

roots-keys : (k : String) (m : Dict (Option ℕ)) → elem k (keys m) ≡ false → elem k (roots m) ≡ false
roots-keys k [] h = refl
roots-keys k ((j, n) ∷ m) h = ground (arith, roots-keys k m)

pub roots_lem :
    (k : String) (m : Dict (Option ℕ))
    → IsDistinct (keys m)
    → elem k (roots m) ≡ zero_at (lookup k m)
unfolding lookup
roots_lem k [] h = refl
roots_lem k ((j, n) ∷ m) h = elim (Bool-cases (j == k)) [
  | inl same ↦
      let is_k = (eq_iff j k).0 same in
      let no_more = roots-keys k m (subst (λ i. elem i (keys m) ≡ false) is_k h.0) in
      elim (Bool-cases (is_zero n)) [
        | inl root ↦ rw (root, same) (sym root)
        | inr other ↦ rw (other, same, no_more) (sym other)
      ]
  | inr other ↦ elim (Bool-cases (is_zero n)) [
    | inl root ↦ rw (root, other) (roots_lem k m h.1)
    | inr no_root ↦ rw (no_root, other) (roots_lem k m h.1)
  ]
]

count-roots : (k : String) (m : Dict (Option ℕ)) → count k (roots m) ≤ count k (keys m)
unfolding count
count-roots k [] = omega arith
count-roots k ((j, n) ∷ m) = ground (arith, count-roots k m)

pub roots_once : (k : String) (m : Dict (Option ℕ)) → IsDistinct (keys m) → count k (roots m) ≤ 1
roots_once k m h = omega (arith, count-roots k m, count_distinct k (keys m) h)

pub roots_known :
    (ts : List Task) (k : String)
    → elem k (roots (indegrees_from ts [])) ≡ true
    → elem k (ids ts) ≡ true
unfolding lookup
roots_known ts k h = elim (Bool-cases (elem k (ids ts))) [
  | inl known ↦ known
  | inr unknown ↦
      let absent : lookup k (indegrees_from ts []) ≡ none = indegrees_other ts [] k unknown in
      absurd (cc (h, roots_lem k (indegrees_from ts []) (indegrees-IsDistinct ts [] tt), absent))
]
