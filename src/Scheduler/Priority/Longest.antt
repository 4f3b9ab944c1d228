-- ===== src/Scheduler/Priority/Longest.antt =====
-- The critical path of a task is its longest chain of dependents (_graph_relevance).
use codex_autopilot.Prelude.{
  All-of_elem, ℕ, zero, suc, ◌+◌, ◌≤◌, max, String, ◌≡◌, refl, sym, ap, ◌∙◌, subst, ◌⊎◌, inl, inr,
  Bool, true, ◌&&◌, ◌||◌, Option, none, some, List, [], ◌∷◌, arith, eq_iff, ltb, leb, ◌==◌, ==_refl,
  Bool-cases, Option-cases, length, any, all, All, elem, Dict, lookup, insert, is_some,
  lookup-insert, lookup-insert_ne, ok,
}
use codex_autopilot.Plan.{Task, ids}
use codex_autopilot.Scheduler.Priority.{
  count_of, repeat, dependents_of, max_over, critical_path, descendants, known_dependencies,
  relevance, relevances, graph_relevance,
}
use codex_autopilot.Scheduler.Priority.Paths.{IsDeepening, critical_path_total, descendants_total}

-- A task with the id `d` names `k` as a dependency.
abbrev pub rests_on : List Task → String → String → Bool
rests_on tasks d k = any (λ t. (t.id == d) && elem k t.depends_on) tasks

-- `n` tasks from `k` on, each of which rests on the one before it.
pub data Chain (tasks : List Task) : ℕ → String → Type 0 where
  alone : {k : String} → Chain tasks 1 k
  then_to :
      {n : ℕ} {k : String} (d : String)
      → rests_on tasks d k ≡ true
      → Chain tasks n d
      → Chain tasks (1 + n) k

pub record IsLongest (tasks : List Task) (k : String) (n : ℕ) : Type 0 where
  pub chain : Chain tasks n k
  pub longest : (m : ℕ) → Chain tasks m k → m ≤ n

elem-repeat :
    (n : ℕ) (d t : String) (rest : List String)
    → elem d (repeat n t rest) ≡ ((t == d && ltb 0 n) || elem d rest)
unfolding repeat
elem-repeat zero d t rest = ground arith
elem-repeat (suc n) d t rest = ground (arith, elem-repeat n d t rest)

count_of-elem : (k : String) (xs : List String) → ltb 0 (count_of k xs) ≡ elem k xs
unfolding count_of
count_of-elem k [] = refl
count_of-elem k (x ∷ xs) = ground (arith, count_of-elem k xs)

elem-dependents_of :
    (k d : String) (tasks : List Task) → elem d (dependents_of k tasks) ≡ rests_on tasks d k
unfolding dependents_of
elem-dependents_of k d [] = refl
elem-dependents_of k d (t ∷ ts) =
    elem-repeat (count_of k t.depends_on) d t.id (dependents_of k ts)
    ∙ rw (count_of-elem k t.depends_on, elem-dependents_of k d ts) refl

-- The greatest value is 0 or one of the values.
max_over-attained :
    (f : String → Option ℕ) (xs : List String) {n : ℕ}
    → max_over f xs ≡ some n
    → (n ≡ 0) ⊎ ((x : String) × (elem x xs ≡ true) × (f x ≡ some n))
unfolding max_over
max_over-attained f [] h = inl (ground arith)
max_over-attained f (x ∷ xs) {n} h = elim (Option-cases (f x)) [
  | inl absent ↦ absurd (ground arith)
  | inr (m, found) ↦ elim (Option-cases (max_over f xs)) [
    | inl stuck ↦ absurd (ground arith)
    | inr (r, rest) ↦
        let top : n ≡ max m r = ground arith in
        elim (Bool-cases (leb r m)) [
          | inl below ↦
              let same : m ≡ n = ground arith in
              inr (x, ground (arith, ==_refl x), found ∙ ap some same)
          | inr above ↦
              let same : r ≡ n = ground arith in
              elim (max_over-attained f xs rest) [
                | inl none_below ↦ inl (sym same ∙ none_below)
                | inr (y, there, held) ↦ inr (y, ground arith, held ∙ ap some same)
              ]
        ]
  ]
]

max_over-all :
    (f : String → Option ℕ) (xs : List String) {n : ℕ}
    → max_over f xs ≡ some n
    → (x : String) → elem x xs ≡ true
    → (m : ℕ) × (f x ≡ some m) × (m ≤ n)
unfolding max_over
max_over-all f [] h x there = absurd (ground arith)
max_over-all f (y ∷ ys) {n} h x there = elim (Option-cases (f y)) [
  | inl absent ↦ absurd (ground arith)
  | inr (m, found) ↦ elim (Option-cases (max_over f ys)) [
    | inl stuck ↦ absurd (ground arith)
    | inr (r, rest) ↦
        let top : n ≡ max m r = ground arith in
        elim (Bool-cases (y == x)) [
          | inl same ↦
              (m, subst (λ z. f z ≡ some m) ((eq_iff y x).0 same) found, omega (arith, top))
          | inr other ↦
              let (m', held, below) = max_over-all f ys rest x (ground arith) in
              (m', held, omega (arith, top, below))
        ]
  ]
]

module _ (tasks : List Task) where
  children_found :
      (fuel : ℕ) (k : String) {n : ℕ}
      → critical_path (suc fuel) tasks k ≡ some n
      → (b : ℕ) × (max_over (critical_path fuel tasks) (dependents_of k tasks) ≡ some b)
        × (n ≡ 1 + b)
  unfolding critical_path
  children_found fuel k {n} h =
      elim (Option-cases (max_over (critical_path fuel tasks) (dependents_of k tasks))) [
        | inl stuck ↦ absurd (ground arith)
        | inr (b, found) ↦ (b, found, ground arith)
      ]

  critical_path-Chain :
      (fuel : ℕ) (k : String) {n : ℕ} → critical_path fuel tasks k ≡ some n → Chain tasks n k
  unfolding critical_path
  critical_path-Chain zero k h = absurd (ground arith)
  critical_path-Chain (suc fuel) k {n} h =
      let (b, found, e) = children_found fuel k h in
      subst (λ m. Chain tasks m k) (sym e)
        (elim (max_over-attained (critical_path fuel tasks) (dependents_of k tasks) found) [
          | inl none_below ↦ subst (λ m. Chain tasks (1 + m) k) (sym none_below) alone
          | inr (d, there, held) ↦
              then_to d (sym (elem-dependents_of k d tasks) ∙ there)
                (critical_path-Chain fuel d held)
        ])

  critical_path-longest :
      (fuel : ℕ) (k : String) {n : ℕ}
      → critical_path fuel tasks k ≡ some n
      → (m : ℕ) → Chain tasks m k
      → m ≤ n
  unfolding critical_path
  critical_path-longest zero k h m c = absurd (ground arith)
  critical_path-longest (suc fuel) k {n} h m alone =
      let (b, found, e) = children_found fuel k h in omega (arith, e)
  critical_path-longest (suc fuel) k {n} h m (then_to {n = rest} d rests c) =
      let (b, found, e) = children_found fuel k h in
      let (path, held, below) =
        max_over-all (critical_path fuel tasks) (dependents_of k tasks) found d
          (elem-dependents_of k d tasks ∙ rests) in
      let shorter : rest ≤ path = critical_path-longest fuel d held rest c in
      omega (arith, e, below, shorter)

-- The dependencies of every task are tasks.
abbrev pub IsClosed : List Task → Type 0
IsClosed tasks = All (λ t. All (λ d. elem d (ids tasks) ≡ true) t.depends_on) tasks

-- What the relevance of a task says.
abbrev pub IsRelevance : List Task → Dict (ℕ × ℕ) → String → Type 0
IsRelevance tasks table k =
    (path : ℕ) × (fan_out : ℕ) × (lookup k table ≡ some (path, fan_out)) × IsLongest tasks k path

all-of_All :
    (known ds : List String) → All (λ d. elem d known ≡ true) ds → all (λ d. elem d known) ds ≡ true
all-of_All known [] h = refl
all-of_All known (d ∷ ds) h = ground (arith, all-of_All known ds h.1, h.0)

known_dependencies_total :
    (known : List String) (ts : List Task)
    → All (λ t. All (λ d. elem d known ≡ true) t.depends_on) ts
    → known_dependencies known ts ≡ ok tt
unfolding known_dependencies
known_dependencies_total known [] h = refl
known_dependencies_total known (t ∷ ts) h =
    rw (all-of_All known t.depends_on h.0) (known_dependencies_total known ts h.1)

some_of {ℓ} : {A : Type ℓ} (o : Option A) → is_some o ≡ true → (a : A) × (o ≡ some a)
some_of none h = absurd (ground arith)
some_of (some a) h = (a, refl)

module _ (depth : String → ℕ) (tasks : List Task)
    (deep : IsDeepening depth (length tasks) tasks) where
  relevance_total : (k : String) → (r : ℕ × ℕ) × (relevance tasks k ≡ ok r) × IsLongest tasks k r.0
  unfolding relevance
  relevance_total k =
      let reaches : length tasks ≤ length tasks + depth k = omega arith in
      let paths = critical_path_total depth (length tasks) tasks deep (length tasks) k reaches in
      let sets = descendants_total depth (length tasks) tasks deep (length tasks) k reaches in
      let (n, path) = some_of (critical_path (length tasks) tasks k) paths in
      let (reached, set) = some_of (descendants (length tasks) tasks k) sets in
      (
        (n, length reached),
        rw (path, set) refl,
        record {
          chain = critical_path-Chain tasks (length tasks) k path;
          longest = critical_path-longest tasks (length tasks) k path;
        },
      )

  relevances_total :
      (ts : List Task)
      → (table : Dict (ℕ × ℕ)) × (relevances tasks ts ≡ ok table)
        × ((k : String) → elem k (ids ts) ≡ true → IsRelevance tasks table k)
  unfolding relevances
  relevances_total [] = ([], refl, λ k there. absurd (ground arith))
  relevances_total (t ∷ ts) =
      let (r, first, longest) = relevance_total t.id in
      let (rest, others, held) = relevances_total ts in
      (
        insert t.id r rest,
        rw (first, others) refl,
        λ k there. elim (Bool-cases (t.id == k)) [
          | inl same ↦
              let at : lookup k (insert t.id r rest) ≡ some r =
                lookup-insert t.id k r rest ∙ rw same refl in
              (r.0, r.1, at, subst (λ j. IsLongest tasks j r.0) ((eq_iff t.id k).0 same) longest)
          | inr other ↦
              let (path, fan_out, found, is_longest) = held k (ground arith) in
              let at : lookup k (insert t.id r rest) ≡ some (path, fan_out) =
                lookup-insert_ne t.id k r rest other ∙ found in
              (path, fan_out, at, is_longest)
        ],
      )

  -- If every dependency is a task, and every dependent of a task stands strictly deeper, by some
  -- measure below the number of tasks, then the relevance of the graph is computed, and the
  -- critical path of each task in it is the length of a longest chain of tasks from it on, each of
  -- which names the one before it as a dependency.
  pub graph_relevance-longest :
      IsClosed tasks
      → (table : Dict (ℕ × ℕ)) × (graph_relevance tasks ≡ ok table)
        × All (IsRelevance tasks table) (ids tasks)
  unfolding graph_relevance
  graph_relevance-longest closed =
      let (table, e, held) = relevances_total tasks in
      (
        table,
        rw (known_dependencies_total (ids tasks) tasks closed) e,
        All-of_elem (IsRelevance tasks table) (ids tasks) held,
      )
