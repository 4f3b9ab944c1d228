-- ===== src/Admission/Cycles.antt =====
-- What a search for cycles that comes to its end has found (_validate_cycles of
-- src/codex_autopilot/plan_admission.py).
use codex_autopilot.Prelude.{
  ℕ, zero, suc, ◌≤◌, ◌<◌, String, ◌≡◌, subst, inl, inr, true, false, some, List, [], ◌∷◌, arith,
  eq_iff, ◌==◌, if◌then◌else◌, ==_refl, Bool-cases, length, All, All-map, elem, Dict, lookup,
  Result, ok, or_raise, >>=-eq-ok, or_raise-eq-ok, ok-injective, All-zip, key_error,
}
use codex_autopilot.Admission.{visit_each, visit}

-- Each visited name's dependencies were visited before it; the newest stands first.
abbrev pub IsGrounded : Dict (List String) → List String → Type 0
IsGrounded D [] = Unit
IsGrounded D (k ∷ visited) =
    ((ds : List String) × (lookup k D ≡ some ds) × All (λ d. elem d visited ≡ true) ds)
    × (elem k visited ≡ false)
    × IsGrounded D visited

-- What a visit does: it keeps what was visited, adds nothing that is under way, and stays grounded.
pub record IsVisit (D : Dict (List String)) (stack visited after : List String) : Type 0 where
  pub grounded : IsGrounded D visited → IsGrounded D after
  pub kept : (k : String) → elem k visited ≡ true → elem k after ≡ true
  pub not_under_way :
      (k : String) → elem k stack ≡ true → elem k visited ≡ false → elem k after ≡ false

abbrev pub IsStep :
    Dict (List String) → List String → (List String → String → Result (List String)) → Type 0
IsStep D stack step =
    (visited : List String)
    → (k : String) → (after : List String) → step visited k ≡ ok after
    → IsVisit D stack visited after × (elem k after ≡ true)

pub each-IsVisit :
    (D : Dict (List String)) (stack : List String)
    (step : List String → String → Result (List String)) (visited ks : List String)
    {after : List String}
    → IsStep D stack step
    → visit_each step visited ks ≡ ok after
    → IsVisit D stack visited after × All (λ k. elem k after ≡ true) ks
unfolding visit_each
each-IsVisit D stack step visited [] {after} s h =
    let same : visited ≡ after = ok-injective h in
    (
      subst (IsVisit D stack visited) same
          (record { grounded = λ g. g; kept = λ k e. e; not_under_way = λ k u e. e }),
      tt,
    )
each-IsVisit D stack step visited (k ∷ ks) {after} s h =
    let (next, one, rest) = >>=-eq-ok (step visited k) _ h in
    let (first, here) = s visited k next one in
    let (others, all_there) = each-IsVisit D stack step next ks s rest in
    (
      record {
        grounded = λ g. others.grounded (first.grounded g);
        kept = λ j e. others.kept j (first.kept j e);
        not_under_way = λ j u e. others.not_under_way j u (first.not_under_way j u e);
      },
      (others.kept k here, all_there),
    )

pub visit-IsVisit :
    (fuel : ℕ) (D : Dict (List String)) (stack : List String) → IsStep D stack (visit fuel D stack)
unfolding visit
visit-IsVisit zero D stack visited k after h = elim (Bool-cases (elem k visited)) [
  | inl old ↦
      let same : visited ≡ after = ok-injective (rw (old, visit) at h) in
      subst (λ a. IsVisit D stack visited a × (elem k a ≡ true)) same
        (record { grounded = λ g. g; kept = λ j e. e; not_under_way = λ j u e. e }, old)
  | inr new ↦ elim (Bool-cases (elem k stack)) [
    | inl under_way ↦ absurd (cc (rw (new, under_way, visit) at h))
    | inr fresh ↦ absurd (cc (rw (new, fresh, visit) at h))
  ]
]
visit-IsVisit (suc fuel) D stack visited k after h = elim (Bool-cases (elem k visited)) [
  | inl old ↦
      let same : visited ≡ after = ok-injective (rw (old, visit) at h) in
      subst (λ a. IsVisit D stack visited a × (elem k a ≡ true)) same
        (record { grounded = λ g. g; kept = λ j e. e; not_under_way = λ j u e. e }, old)
  | inr new ↦ elim (Bool-cases (elem k stack)) [
    | inl under_way ↦ absurd (cc (rw (new, under_way, visit) at h))
    | inr fresh ↦
        let (ds, found, h₁) =
          >>=-eq-ok (or_raise (lookup k D) (key_error k)) _ (rw (new, fresh, visit) at h) in
        let held = or_raise-eq-ok (lookup k D) (key_error k) found in
        let (inner, each, h₂) = >>=-eq-ok (visit_each (visit fuel D (k ∷ stack)) visited ds) _ h₁ in
        let same : (k ∷ inner) ≡ after = ok-injective h₂ in
        let (v, there) =
          each-IsVisit D (k ∷ stack) (visit fuel D (k ∷ stack)) visited ds
            (visit-IsVisit fuel D (k ∷ stack)) each in
        subst (λ a. IsVisit D stack visited a × (elem k a ≡ true)) same
          (
            record {
              grounded = λ g. (
                (ds, held, there),
                v.not_under_way k (ground (arith, ==_refl k)) new,
                v.grounded g,
              );
              kept = λ j e. ground (arith, v.kept j e);
              not_under_way =
                  λ j u e. ground (arith, v.not_under_way j (ground arith) e, fresh, u, eq_iff k j);
            },
            ground (arith, ==_refl k),
          )
  ]
]

-- The place of a name, counted from the oldest.
abbrev pub depth_in : List String → String → ℕ
depth_in [] k = 0
depth_in (j ∷ visited) k =
    let rest = depth_in visited k in if j == k then suc (length visited) else rest

depth_in-le : (visited : List String) (k : String) → depth_in visited k ≤ length visited
depth_in-le [] k = omega arith
depth_in-le (j ∷ visited) k = ground (arith, depth_in-le visited k)

-- A dependency of a visited name has a lower place.
pub grounded_depth :
    (D : Dict (List String)) (visited : List String) (k : String) (ds : List String)
    → IsGrounded D visited
    → elem k visited ≡ true
    → lookup k D ≡ some ds
    → All (λ d. depth_in visited d < depth_in visited k) ds
grounded_depth D [] k ds g e held = absurd (cc e)
grounded_depth D (j ∷ visited) k ds ((es, found, before), fresh, g) e held =
    elim (Bool-cases (j == k)) [
      | inl same ↦
          let is_k = (eq_iff j k).0 same in
          let same_list : es ≡ ds = cc (found, held, is_k) in
          let mine = subst (λ l. All (λ d. elem d visited ≡ true) l) same_list before in
          rw same (
            All-map ds
              (λ d there.
                let other = apart d there in rw other (omega (arith, depth_in-le visited d)))
              mine)
      | inr other ↦
          let k_there : elem k visited ≡ true = rw other at e in
          rw other (
            All-map ds
              (λ (d : String)
                  (p : (elem d visited ≡ true) × (depth_in visited d < depth_in visited k)).
                rw (apart d p.0) p.1)
              (All-zip ds (λ d a b. (a, b)) (deps_there visited k ds g k_there held)
                (grounded_depth D visited k ds g k_there held)))
    ]
  where
    apart : (d : String) → elem d visited ≡ true → (j == d) ≡ false
    apart d there = elim (Bool-cases (j == d)) [
      | inl same ↦ absurd (cc ((eq_iff j d).0 same, fresh, there))
      | inr differs ↦ differs
    ]

    deps_there :
        (names : List String) (k : String) (ds : List String)
        → IsGrounded D names
        → elem k names ≡ true
        → lookup k D ≡ some ds
        → All (λ d. elem d names ≡ true) ds
    deps_there [] k ds g e held = absurd (cc e)
    deps_there (i ∷ names) k ds ((es, found, before), fresh, g) e held =
        elim (Bool-cases (i == k)) [
          | inl same ↦
              let same_list : es ≡ ds = cc (found, held, (eq_iff i k).0 same) in
              All-map ds (λ d there. ground arith)
                (subst (λ l. All (λ d. elem d names ≡ true) l) same_list before)
          | inr other ↦
              All-map ds (λ d there. ground arith) (deps_there names k ds g (rw other at e) held)
        ]
