-- ===== src/PlanGraph/Counts.antt =====
-- Counting in the lists of the dependency order (src/codex_autopilot/plan_graph.py): what a sort
-- keeps, which dependencies are missing, and when a list of names is complete.
use codex_autopilot.Prelude.{
  ℕ, suc, ◌+◌, ◌≤◌, String, ◌≡◌, refl, sym, ap, ◌∙◌, subst, inl, inr, Bool, true, false, not, ◌&&◌,
  ◌||◌, List, [], ◌∷◌, ◌++◌, arith, eq_iff, ◌==◌, ==_refl, Bool-cases, length, filter_by, All,
  All-map, elem, IsDistinct, filter_by_none, count, elem-append, sort_by, insert_sorted,
}

module _ (before : String → String → Bool) where
  count-insert_sorted :
      (k x : String) (xs : List String) → count k (insert_sorted before x xs) ≡ count k (x ∷ xs)
  unfolding insert_sorted count
  count-insert_sorted k x [] = refl
  count-insert_sorted k x (y ∷ ys) = elim (Bool-cases (before y x)) [
    | inl first ↦ rw first (ground (arith, count-insert_sorted k x ys))
    | inr last ↦ rw last refl
  ]

  pub count-sort_by : (k : String) (xs : List String) → count k (sort_by before xs) ≡ count k xs
  unfolding sort_by count
  count-sort_by k [] = refl
  count-sort_by k (x ∷ xs) =
      count-insert_sorted k x (sort_by before xs) ∙ ground (arith, count-sort_by k xs)

  elem-insert_sorted :
      (k x : String) (xs : List String) → elem k (insert_sorted before x xs) ≡ (x == k || elem k xs)
  unfolding insert_sorted
  elem-insert_sorted k x [] = refl
  elem-insert_sorted k x (y ∷ ys) = elim (Bool-cases (before y x)) [
    | inl first ↦ rw first (ground (arith, elem-insert_sorted k x ys))
    | inr last ↦ rw last refl
  ]

  pub elem-sort_by : (k : String) (xs : List String) → elem k (sort_by before xs) ≡ elem k xs
  unfolding sort_by
  elem-sort_by k [] = refl
  elem-sort_by k (x ∷ xs) =
      elem-insert_sorted k x (sort_by before xs) ∙ ground (arith, elem-sort_by k xs)

pub count-append : (k : String) (xs ys : List String) → count k (xs ++ ys) ≡ count k xs + count k ys
unfolding count
count-append k [] ys = omega arith
count-append k (x ∷ xs) ys = ground (arith, count-append k xs ys)

pub count_present : (k : String) (xs : List String) → elem k xs ≡ true → 1 ≤ count k xs
unfolding count
count_present k [] h = cc
count_present k (x ∷ xs) h = ground (arith, count_present k xs)

-- The dependencies that are not done.
abbrev pub missing_of : List String → List String → ℕ
missing_of ds done = length (filter_by (λ d. not (elem d done)) ds)

pub missing_pop :
    (ds done : List String) (c : String)
    → elem c done ≡ false
    → missing_of ds done ≡ missing_of ds (done ++ c ∷ []) + count c ds
unfolding count
missing_pop [] done c h = refl
missing_pop (d ∷ ds) done c h = elim (Bool-cases (d == c)) [
  | inl same ↦
      let is_c = (eq_iff d c).0 same in
      let fresh : elem d done ≡ false = subst (λ j. elem j done ≡ false) (sym is_c) h in
      let now : elem d (done ++ c ∷ []) ≡ true =
        rw elem-append (ground (arith, fresh, same, eq_iff c d, is_c)) in
      rw (same, fresh, now) (omega (arith, missing_pop ds done c h))
  | inr other ↦
      let kept : elem d (done ++ c ∷ []) ≡ elem d done =
        rw elem-append (ground (arith, other, eq_iff c d, eq_iff d c)) in
      elim (Bool-cases (elem d done)) [
        | inl old ↦ rw (other, kept, old) (missing_pop ds done c h)
        | inr new ↦ rw (other, kept, new) (omega (arith, missing_pop ds done c h))
      ]
]

pub missing_none :
    (ds done : List String) → missing_of ds done ≡ 0 → All (λ d. elem d done ≡ true) ds
missing_none [] done h = tt
missing_none (d ∷ ds) done h = elim (Bool-cases (elem d done)) [
  | inl old ↦ (old, missing_none ds done (rw old at h))
  | inr new ↦ absurd (omega (arith, (rw new at h)))
]

pub none_missing :
    (ds done : List String) → All (λ d. elem d done ≡ true) ds → missing_of ds done ≡ 0
none_missing ds done h =
    ap (λ l. length l)
      (filter_by_none (λ d. not (elem d done)) ds (All-map ds (λ d e. rw e refl) h))

pub missing_of_all : (ds : List String) → missing_of ds [] ≡ length ds
missing_of_all [] = refl
missing_of_all (d ∷ ds) = ap (λ n. suc n) (missing_of_all ds)

-- In the list, `d` is met strictly before `k` is.
abbrev pub precedes : List String → String → String → Bool
precedes [] d k = false
precedes (x ∷ xs) d k = not (x == k) && (x == d || precedes xs d k)

pub precedes-append :
    (xs ys : List String) (d k : String) → precedes xs d k ≡ true → precedes (xs ++ ys) d k ≡ true
precedes-append [] ys d k h = cc
precedes-append (x ∷ xs) ys d k h = ground (arith, precedes-append xs ys d k)

pub precedes-snoc :
    (xs : List String) (d k : String)
    → elem d xs ≡ true
    → elem k xs ≡ false
    → precedes (xs ++ k ∷ []) d k ≡ true
precedes-snoc [] d k h g = cc
precedes-snoc (x ∷ xs) d k h g = ground (arith, precedes-snoc xs d k)

-- How many of the names do not stand in the list.
abbrev pub absent_from : List String → List String → ℕ
absent_from names xs = missing_of names xs

absent_skip :
    (names xs : List String) (c : String)
    → elem c names ≡ false
    → absent_from names (c ∷ xs) ≡ absent_from names xs
absent_skip [] xs c h = refl
absent_skip (k ∷ names) xs c h = ground (arith, absent_skip names xs c, eq_iff k c, eq_iff c k)

absent_less :
    (names xs : List String) (c : String)
    → IsDistinct names
    → elem c names ≡ true
    → elem c xs ≡ false
    → suc (absent_from names (c ∷ xs)) ≡ absent_from names xs
absent_less [] xs c once h fresh = cc
absent_less (k ∷ names) xs c once h fresh = elim (Bool-cases (k == c)) [
  | inl same ↦
      let is_c = (eq_iff k c).0 same in
      let fresh_k : elem k xs ≡ false = subst (λ j. elem j xs ≡ false) (sym is_c) fresh in
      let no_more : elem c names ≡ false = subst (λ j. elem j names ≡ false) is_c once.0 in
      let flipped : (c == k) ≡ true = (eq_iff c k).1 (sym is_c) in
      rw (flipped, fresh_k) (ap (λ n. suc n) (absent_skip names xs c no_more))
  | inr other ↦
      ground (arith, absent_less names xs c once.1 (rw other at h) fresh, eq_iff k c, eq_iff c k)
]

-- Names that stand once each and are among distinct names: the others are absent.
pub absent_count :
    (names xs : List String)
    → IsDistinct names
    → ((k : String) → count k xs ≤ 1)
    → ((k : String) → elem k xs ≡ true → elem k names ≡ true)
    → length xs + absent_from names xs ≡ length names
unfolding count
absent_count names [] once single among = omega (arith, missing_of_all names)
absent_count names (x ∷ xs) once single among =
    let fresh : elem x xs ≡ false = ground (arith, single x, count_present x xs, ==_refl x) in
    let rest =
      absent_count names xs once (λ k. ground (arith, single k)) (λ k e. among k (ground arith)) in
    let less = absent_less names xs x once (among x (ground (arith, ==_refl x))) fresh in
    omega (arith, rest, less)
