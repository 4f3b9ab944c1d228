-- ===== src/PlanGraph/Children.antt =====
-- Who depends on whom, in the dictionary of dependents (topological_order of
-- src/codex_autopilot/plan_graph.py).
use codex_autopilot.Prelude.{
  String, ◌≡◌, refl, subst, inl, inr, true, some, List, [], ◌∷◌, ◌++◌, arith, eq_iff, ◌==◌, ==_refl,
  Bool-cases, All, All-map, elem, Dict, lookup, insert, lookup-insert, lookup-insert_self,
  lookup-insert_ne, All-lookup, All-insert, ok, or_raise, >>=-eq-ok, or_raise-eq-ok, All-snoc,
  elem-append, key_error,
}
use codex_autopilot.Plan.{Task, ids}
use codex_autopilot.PlanGraph.{no_dependents, add_dependent, add_dependents}

-- `child` stands in the list of `parent`.
abbrev pub IsChild : Dict (List String) → String → String → Type 0
IsChild dependents parent child =
    (cs : List String) × (lookup parent dependents ≡ some cs) × (elem child cs ≡ true)

IsChild-insert :
    (D : Dict (List String)) (k : String) (known : List String) (new parent child : String)
    → lookup k D ≡ some known
    → IsChild D parent child
    → IsChild (insert k (known ++ new ∷ []) D) parent child
IsChild-insert D k known new parent child at_k (cs, found, here) = elim (Bool-cases (k == parent)) [
  | inl is_k ↦
      let same = (eq_iff k parent).0 is_k in
      let same_list : cs ≡ known = cc in
      (
        known ++ new ∷ [],
        rw (lookup-insert, is_k) refl,
        rw elem-append (ground (arith, (subst (λ l. elem child l ≡ true) same_list here))),
      )
  | inr other ↦ (cs, rw (lookup-insert_ne k parent (known ++ new ∷ []) D other) found, here)
]

IsChild-new :
    (D : Dict (List String)) (k : String) (known : List String) (new : String)
    → IsChild (insert k (known ++ new ∷ []) D) k new
IsChild-new D k known new = (
  known ++ new ∷ [],
  lookup-insert_self k (known ++ new ∷ []) D,
  rw elem-append (ground (arith, ==_refl new)),
)

add_dependent-keeps :
    (new : String) (ds : List String) (D : Dict (List String)) {D' : Dict (List String)}
    (parent child : String)
    → add_dependent new ds D ≡ ok D'
    → IsChild D parent child
    → IsChild D' parent child
unfolding add_dependent
add_dependent-keeps new [] D parent child h c = subst (λ E. IsChild E parent child) (cc h) c
add_dependent-keeps new (d ∷ ds) D parent child h c =
    let (known, found, h₁) = >>=-eq-ok (or_raise (lookup d D) (key_error d)) _ h in
    add_dependent-keeps new ds (insert d (known ++ new ∷ []) D) parent child h₁ (
      IsChild-insert D d known new parent child (or_raise-eq-ok (lookup d D) (key_error d) found) c)

add_dependent-adds :
    (new : String) (ds : List String) (D : Dict (List String)) {D' : Dict (List String)}
    → add_dependent new ds D ≡ ok D'
    → All (λ d. IsChild D' d new) ds
unfolding add_dependent
add_dependent-adds new [] D h = tt
add_dependent-adds new (d ∷ ds) D h =
    let (known, found, h₁) = >>=-eq-ok (or_raise (lookup d D) (key_error d)) _ h in
    (
      add_dependent-keeps new ds (insert d (known ++ new ∷ []) D) d new h₁
          (IsChild-new D d known new),
      add_dependent-adds new ds (insert d (known ++ new ∷ []) D) h₁,
    )

add_dependents-keeps :
    (ts : List Task) (D : Dict (List String)) {D' : Dict (List String)} (parent child : String)
    → add_dependents ts D ≡ ok D'
    → IsChild D parent child
    → IsChild D' parent child
unfolding add_dependents
add_dependents-keeps [] D parent child h c = subst (λ E. IsChild E parent child) (cc h) c
add_dependents-keeps (t ∷ ts) D parent child h c =
    let (next, first, h₁) = >>=-eq-ok (add_dependent t.id t.depends_on D) _ h in
    add_dependents-keeps ts next parent child h₁
      (add_dependent-keeps t.id t.depends_on D parent child first c)

-- Every task is a child of each of its dependencies.
pub add_dependents-adds :
    (ts : List Task) (D : Dict (List String)) {D' : Dict (List String)}
    → add_dependents ts D ≡ ok D'
    → All (λ t. All (λ d. IsChild D' d t.id) t.depends_on) ts
unfolding add_dependents
add_dependents-adds [] D h = tt
add_dependents-adds (t ∷ ts) D {D'} h =
    let (next, first, h₁) = >>=-eq-ok (add_dependent t.id t.depends_on D) _ h in
    (
      All-map t.depends_on (λ d c. add_dependents-keeps ts next d t.id h₁ c)
          (add_dependent-adds t.id t.depends_on D first),
      add_dependents-adds ts next h₁,
    )

-- Every child is one of the given names.
abbrev pub HasChildrenIn : List String → Dict (List String) → Type 0
HasChildrenIn names D = All (λ entry. All (λ c. elem c names ≡ true) entry.1) D

pub no_dependents-HasChildrenIn :
    (names : List String) (ts : List Task) (D : Dict (List String))
    → HasChildrenIn names D
    → HasChildrenIn names (no_dependents ts D)
unfolding no_dependents
no_dependents-HasChildrenIn names [] D h = h
no_dependents-HasChildrenIn names (t ∷ ts) D h =
    no_dependents-HasChildrenIn names ts (insert t.id [] D)
      (All-insert (λ entry. All (λ c. elem c names ≡ true) entry.1) D t.id [] h tt)

add_dependent-HasChildrenIn :
    (names : List String) (new : String) (ds : List String) (D : Dict (List String))
    {D' : Dict (List String)}
    → add_dependent new ds D ≡ ok D'
    → elem new names ≡ true
    → HasChildrenIn names D
    → HasChildrenIn names D'
unfolding add_dependent
add_dependent-HasChildrenIn names new [] D h known c = subst (HasChildrenIn names) (cc h) c
add_dependent-HasChildrenIn names new (d ∷ ds) D h named c =
    let (known, found, h₁) = >>=-eq-ok (or_raise (lookup d D) (key_error d)) _ h in
    let P = λ (entry : String × List String). All (λ k. elem k names ≡ true) entry.1 in
    let at_d = All-lookup P D d known c (or_raise-eq-ok (lookup d D) (key_error d) found) in
    add_dependent-HasChildrenIn names new ds (insert d (known ++ new ∷ []) D) h₁ named (
      All-insert P D d (known ++ new ∷ []) c
        (All-snoc (λ k. elem k names ≡ true) known new at_d named))

pub add_dependents-HasChildrenIn :
    (names : List String) (ts : List Task) (D : Dict (List String)) {D' : Dict (List String)}
    → add_dependents ts D ≡ ok D'
    → All (λ k. elem k names ≡ true) (ids ts)
    → HasChildrenIn names D
    → HasChildrenIn names D'
unfolding add_dependents
add_dependents-HasChildrenIn names [] D h named c = subst (HasChildrenIn names) (cc h) c
add_dependents-HasChildrenIn names (t ∷ ts) D h named c =
    let (next, first, h₁) = >>=-eq-ok (add_dependent t.id t.depends_on D) _ h in
    add_dependents-HasChildrenIn names ts next h₁ named.1
      (add_dependent-HasChildrenIn names t.id t.depends_on D first named.0 c)
