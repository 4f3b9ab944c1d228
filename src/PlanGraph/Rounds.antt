-- ===== src/PlanGraph/Rounds.antt =====
-- What the rounds of the dependency order keep (topological_order of
-- src/codex_autopilot/plan_graph.py).
use codex_autopilot.Prelude.{
  ℕ, suc, ◌+◌, ◌≤◌, String, ◌≡◌, refl, sym, ap, ◌∙◌, subst, inl, inr, Bool, true, false, ◌||◌,
  Option, some, List, [], ◌∷◌, ◌++◌, arith, eq_iff, nat_eq, ◌==◌, if◌then◌else◌, ==_refl,
  Bool-cases, All, All-map, elem, Dict, lookup, insert, lookup-insert, lookup-insert_ne, ok,
  All-zip, count, count_absent, elem-append, sort_by,
}
use codex_autopilot.Plan.{Task, ids}
use codex_autopilot.PlanGraph.{rank_before, release_dependent, release_dependents}
use codex_autopilot.PlanGraph.Counts.{
  count-sort_by, elem-sort_by, count-append, count_present, missing_of, missing_pop, missing_none,
  precedes, precedes-append, precedes-snoc,
}

-- The dependencies of a task that are still counted: those not done, and those of the task taken
-- last whose turn has not come.
abbrev pub remaining : Task → List String → List String → ℕ
remaining t result pending = missing_of t.depends_on result + count t.id pending

-- In the middle of a round: `pending` are the dependents of the task taken last that have not had
-- their turn.
pub record IsRound (tasks : List Task) (result ready : List String) (indegree : Dict (Option ℕ))
    (pending : List String) : Type 0 where
  pub counted : All (λ t. lookup t.id indegree ≡ some (some (remaining t result pending))) tasks
  pub once : (k : String) → count k result + count k ready ≤ 1
  pub known : (k : String) → (elem k result || elem k ready) ≡ true → elem k (ids tasks) ≡ true
  pub free :
      All (λ t. (elem t.id result || elem t.id ready) ≡ nat_eq (remaining t result pending) 0) tasks
  pub ordered :
      All
        (λ t. elem t.id result ≡ true → All (λ d. precedes result d t.id ≡ true) t.depends_on)
        tasks

-- A fact about every task, read at the task of an id.
pub task_at :
    (P : Task → Type 0) (ts : List Task) (k : String)
    → All P ts
    → elem k (ids ts) ≡ true
    → (t : Task) × (t.id ≡ k) × P t
task_at P [] k h e = absurd (cc e)
task_at P (t ∷ ts) k h e = elim (Bool-cases (t.id == k)) [
  | inl same ↦ (t, (eq_iff t.id k).0 same, h.0)
  | inr other ↦ task_at P ts k h.1 (rw other at e)
]

module _ (rank : Dict ℕ) (tasks : List Task) (result : List String) where
  abbrev before : String → String → Bool
  before = rank_before rank

  some-suc-injective : (m n : ℕ) → some (some m) ≡ some (some n) → m ≡ n
  some-suc-injective m n h = cc

  module _ (d : String) (pending ready : List String) (indegree : Dict (Option ℕ)) (m : ℕ)
      (r : IsRound tasks result ready indegree (d ∷ pending))
      (at_d : lookup d indegree ≡ some (some (suc m))) where
    -- The count of the dependent is one more than it will be.
    left_of_d :
        (t : Task)
        → lookup t.id indegree ≡ some (some (remaining t result (d ∷ pending)))
        → (t.id == d) ≡ true
        → remaining t result pending ≡ m
    unfolding count
    left_of_d t counted same =
        let is_d = (eq_iff t.id d).0 same in
        let there : lookup d indegree ≡ some (some (remaining t result (d ∷ pending))) =
          subst (λ k. lookup k indegree ≡ some (some (remaining t result (d ∷ pending)))) is_d
            counted in
        let both =
          some-suc-injective (suc m) (remaining t result (d ∷ pending)) (sym at_d ∙ there) in
        let flipped : (d == t.id) ≡ true = (eq_iff d t.id).1 (sym is_d) in
        omega (arith, (rw flipped at both))

    left_of_other :
        (t : Task)
        → (t.id == d) ≡ false
        → remaining t result (d ∷ pending) ≡ remaining t result pending
    unfolding count
    left_of_other t other =
        let flipped : (d == t.id) ≡ false = ground (arith, other, eq_iff t.id d, eq_iff d t.id) in
        rw flipped refl

    d_is_new : elem d (ids tasks) ≡ true → (elem d result || elem d ready) ≡ false
    unfolding count
    d_is_new d_known =
        let (t, is_d, both) =
          task_at
            (λ t.
              (lookup t.id indegree ≡ some (some (remaining t result (d ∷ pending))))
              × ((elem t.id result || elem t.id ready)
                  ≡ nat_eq (remaining t result (d ∷ pending)) 0))
            tasks d (All-zip tasks (λ t c f. (c, f)) r.counted r.free) d_known in
        let there =
          subst (λ k. lookup k indegree ≡ some (some (remaining t result (d ∷ pending)))) is_d
            both.0 in
        let more =
          some-suc-injective (suc m) (remaining t result (d ∷ pending)) (sym at_d ∙ there) in
        let not_zero : nat_eq (remaining t result (d ∷ pending)) 0 ≡ false = ground (arith, more) in
        subst (λ k. (elem k result || elem k ready) ≡ false) is_d (both.1 ∙ not_zero)

    counted_next :
        All
          (λ t. lookup t.id (insert d (some m) indegree) ≡ some (some (remaining t result pending)))
          tasks
    counted_next =
        All-map tasks
          (λ t c. elim (Bool-cases (t.id == d)) [
            | inl same ↦
                let flipped : (d == t.id) ≡ true =
                  (eq_iff d t.id).1 (sym ((eq_iff t.id d).0 same)) in
                rw (lookup-insert, flipped, left_of_d t c same) refl
            | inr other ↦
                let flipped : (d == t.id) ≡ false =
                  ground (arith, other, eq_iff t.id d, eq_iff d t.id) in
                lookup-insert_ne d t.id (some m) indegree flipped
                ∙ c
                ∙ ap (λ n. some (some n)) (left_of_other t other)
          ])
          r.counted

    -- The dependent is not ready yet.
    stays : nat_eq m 0 ≡ false → IsRound tasks result ready (insert d (some m) indegree) pending
    unfolding count
    stays waits = record {
      counted = counted_next;
      once = r.once;
      known = r.known;
      free =
          All-zip tasks
            (λ t c f. elim (Bool-cases (t.id == d)) [
              | inl same ↦
                  let mine = left_of_d t c same in
                  let flipped : (d == t.id) ≡ true =
                    (eq_iff d t.id).1 (sym ((eq_iff t.id d).0 same)) in
                  let counting : nat_eq (remaining t result (d ∷ pending)) 0 ≡ false =
                    rw flipped (ground arith) in
                  let not_now : nat_eq (remaining t result pending) 0 ≡ false = rw mine waits in
                  f ∙ counting ∙ sym not_now
              | inr other ↦ f ∙ ap (λ n. nat_eq n 0) (left_of_other t other)
            ])
            r.counted r.free;
      ordered = r.ordered;
    }

    -- The dependent becomes ready.
    joins :
        nat_eq m 0 ≡ true
        → elem d (ids tasks) ≡ true
        → IsRound tasks result
            (sort_by before (ready ++ d ∷ []))
            (insert d (some m) indegree)
            pending
    unfolding count
    joins now d_known =
        let fresh = d_is_new d_known in
        record {
          counted = counted_next;
          once = λ k.
              let sorted =
                count-sort_by before k (ready ++ d ∷ []) ∙ count-append k ready (d ∷ []) in
              ground (
                arith,
                sorted,
                r.once k,
                count_absent k result,
                count_absent k ready,
                fresh,
                eq_iff d k,
              );
          known = λ k e.
              let sorted = elem-sort_by before k (ready ++ d ∷ []) ∙ elem-append k ready (d ∷ []) in
              ground (arith, sorted, e, r.known k, d_known, eq_iff d k);
          free =
              All-zip tasks
                (λ t c f.
                  let sorted =
                    elem-sort_by before t.id (ready ++ d ∷ []) ∙ elem-append t.id ready (d ∷ []) in
                  elim (Bool-cases (t.id == d)) [
                    | inl same ↦
                        let flipped : (d == t.id) ≡ true =
                          (eq_iff d t.id).1 (sym ((eq_iff t.id d).0 same)) in
                        rw (left_of_d t c same, now, sorted, flipped) (ground arith)
                    | inr other ↦
                        let flipped : (d == t.id) ≡ false =
                          ground (arith, other, eq_iff t.id d, eq_iff d t.id) in
                        let kept : elem t.id (sort_by before (ready ++ d ∷ [])) ≡ elem t.id ready =
                          sorted ∙ ground (arith, flipped) in
                        rw kept (f ∙ ap (λ n. nat_eq n 0) (left_of_other t other))
                  ])
                r.counted r.free;
          ordered = r.ordered;
        }

  abbrev pub after_one : ℕ → String → List String → Dict (Option ℕ) → Dict (Option ℕ) × List String
  after_one m d ready indegree =
      (insert d (some m) indegree, if nat_eq m 0 then sort_by before (ready ++ d ∷ []) else ready)

  release_dependent_lem :
      (d : String) (ready : List String) (indegree : Dict (Option ℕ)) (m : ℕ)
      → lookup d indegree ≡ some (some (suc m))
      → release_dependent rank (indegree, ready) d ≡ ok (after_one m d ready indegree)
  unfolding release_dependent
  release_dependent_lem d ready indegree m h = rw h refl

  -- A dependent's turn goes well, and keeps the round.
  release_one :
      (d : String) (pending ready : List String) (indegree : Dict (Option ℕ))
      → IsRound tasks result ready indegree (d ∷ pending)
      → elem d (ids tasks) ≡ true
      → (next : Dict (Option ℕ) × List String) × (release_dependent rank (indegree, ready) d
          ≡ ok next)
        × IsRound tasks result next.1 next.0 pending
  unfolding count
  release_one d pending ready indegree r d_known =
      let (t, is_d, counted) =
        task_at (λ t. lookup t.id indegree ≡ some (some (remaining t result (d ∷ pending)))) tasks d
          r.counted d_known in
      let m = remaining t result pending in
      let flipped : (d == t.id) ≡ true = (eq_iff d t.id).1 (sym is_d) in
      let more : remaining t result (d ∷ pending) ≡ suc m = rw flipped (omega arith) in
      let at_d : lookup d indegree ≡ some (some (suc m)) =
        subst (λ k. lookup k indegree ≡ some (some (suc m))) is_d
          (counted ∙ ap (λ n. some (some n)) more) in
      (
        after_one m d ready indegree,
        release_dependent_lem d ready indegree m at_d,
        elim (Bool-cases (nat_eq m 0)) [
          | inl now ↦ rw now (joins d pending ready indegree m r at_d now d_known)
          | inr waits ↦ rw waits (stays d pending ready indegree m r at_d waits)
        ],
      )

  pub release_all :
      (pending ready : List String) (indegree : Dict (Option ℕ))
      → IsRound tasks result ready indegree pending
      → All (λ d. elem d (ids tasks) ≡ true) pending
      → (next : Dict (Option ℕ) × List String) × (release_dependents rank (indegree, ready) pending
          ≡ ok next)
        × IsRound tasks result next.1 next.0 []
  unfolding release_dependents
  release_all [] ready indegree r known = ((indegree, ready), refl, r)
  release_all (d ∷ pending) ready indegree r known =
      let (next, one, s) = release_one d pending ready indegree r known.0 in
      let (end, rest, e) = release_all pending next.1 next.0 s known.1 in
      (end, rw (one, rest) refl, e)

same_remaining :
    (t : Task) (result freed : List String) (c : String)
    → elem c result ≡ false
    → count t.id freed ≡ count c t.depends_on
    → remaining t result [] ≡ remaining t (result ++ c ∷ []) freed
unfolding count
same_remaining t result freed c fresh n = omega (arith, missing_pop t.depends_on result c fresh, n)

-- The task that is taken comes after its dependencies.
order_kept :
    (t : Task) (result : List String) (c : String)
    → elem c result ≡ false
    → ((t.id == c) ≡ true → missing_of t.depends_on result ≡ 0)
    → (elem t.id result ≡ true → All (λ d. precedes result d t.id ≡ true) t.depends_on)
    → elem t.id (result ++ c ∷ []) ≡ true
    → All (λ d. precedes (result ++ c ∷ []) d t.id ≡ true) t.depends_on
order_kept t result c fresh none_left old e = elim (Bool-cases (elem t.id result)) [
  | inl before_it ↦
      All-map t.depends_on (λ d p. precedes-append result (c ∷ []) d t.id p) (old before_it)
  | inr not_before ↦
      let is_c : (t.id == c) ≡ true =
        ground
          (arith, elem-append t.id result (c ∷ []), e, not_before, eq_iff c t.id, eq_iff t.id c) in
      let same = (eq_iff t.id c).0 is_c in
      All-map t.depends_on
        (λ d done.
          subst (λ k. precedes (result ++ c ∷ []) d k ≡ true) (sym same)
            (precedes-snoc result d c done fresh))
        (missing_none t.depends_on result (none_left is_c))
]

-- A task is taken off the ready ones.
pub take_one :
    (tasks : List Task) (result ready freed : List String) (c : String) (indegree : Dict (Option ℕ))
    → IsRound tasks result (c ∷ ready) indegree []
    → All (λ t. count t.id freed ≡ count c t.depends_on) tasks
    → IsRound tasks (result ++ c ∷ []) ready indegree freed
unfolding count
take_one tasks result ready freed c indegree r counts =
    let fresh : elem c result ≡ false =
      ground (arith, r.once c, count_present c result, ==_refl c) in
    record {
      counted =
          All-zip tasks
            (λ t held n. held ∙ ap (λ k. some (some k)) (same_remaining t result freed c fresh n))
            r.counted counts;
      once = λ k. ground (arith, count-append k result (c ∷ []), r.once k);
      known = λ k e. r.known k (ground (arith, elem-append k result (c ∷ []), e));
      free =
          All-zip tasks
            (λ t f n.
              let moved : (elem t.id (result ++ c ∷ []) || elem t.id ready)
                  ≡ (elem t.id result || elem t.id (c ∷ ready)) =
                ground (arith, elem-append t.id result (c ∷ [])) in
              moved ∙ f ∙ ap (λ k. nat_eq k 0) (same_remaining t result freed c fresh n))
            r.free counts;
      ordered =
          All-zip tasks
            (λ t f old. order_kept t result c fresh (λ same. ready_is_free t f same) old) r.free
            r.ordered;
    }
  where
    ready_is_free :
        (t : Task)
        → (elem t.id result || elem t.id (c ∷ ready)) ≡ nat_eq (remaining t result []) 0
        → (t.id == c) ≡ true
        → missing_of t.depends_on result ≡ 0
    ready_is_free t f same =
        let flipped : (c == t.id) ≡ true = (eq_iff c t.id).1 (sym ((eq_iff t.id c).0 same)) in
        let zero_left : nat_eq (remaining t result []) 0 ≡ true =
          sym f ∙ rw flipped (ground arith) in
        ground (arith, zero_left)
