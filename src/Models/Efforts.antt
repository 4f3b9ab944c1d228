-- ===== src/Models/Efforts.antt =====
-- The effort ladder: it climbs and ends, and an unsupported effort goes to the nearest supported one.
use codex_autopilot.Prelude.{
  ℕ, ◌+◌, String, ◌≡◌, refl, sym, subst, ◌⊎◌, inl, inr, Bool, true, false, Option, none, some, List,
  [], ◌∷◌, arith, eq_iff, ==_refl, Bool-cases, filter_by, All, elem, ok, ensure-bind-eq-ok, ◌≤◌,
  ◌==◌,
}
use codex_autopilot.Models.{
  index_of, pair_less, public_reasoning, next_effort_step, step_after, or_first, rung, distance,
  nearer, nearest, pick_effort, resolve_reasoning,
}

pub reasoning_cases :
    (e : String)
    → elem e public_reasoning ≡ true
    → (e ≡ "medium") ⊎ (e ≡ "high") ⊎ (e ≡ "xhigh") ⊎ (e ≡ "max")
reasoning_cases e h =
    ground (arith, eq_iff "medium" e, eq_iff "high" e, eq_iff "xhigh" e, eq_iff "max" e)

pub rung-le : (e : String) → rung e ≤ 3
unfolding rung index_of
rung-le e = ground arith

pub listed-filled : (e : String) → elem e public_reasoning ≡ true → (e == "") ≡ false
listed-filled e h = elim (reasoning_cases e h) [
  | inl medium ↦ rw medium refl
  | inr (inl high) ↦ rw high refl
  | inr (inr (inl xhigh)) ↦ rw xhigh refl
  | inr (inr (inr top)) ↦ rw top refl
]

-- The rung that a step leads to: none at the top, and the next one up below it.
abbrev pub IsStepUp : String → Option String → Type 0
IsStepUp e none = e ≡ "max"
IsStepUp e (some f) = (rung f ≡ rung e + 1) × (elem f public_reasoning ≡ true)

step_after-IsStepUp :
    (e : String) → elem e public_reasoning ≡ true → IsStepUp e (step_after e public_reasoning)
unfolding step_after rung
step_after-IsStepUp e h = elim (reasoning_cases e h) [
  | inl medium ↦ rw medium (refl, refl)
  | inr (inl high) ↦ rw high (refl, refl)
  | inr (inr (inl xhigh)) ↦ rw xhigh (refl, refl)
  | inr (inr (inr top)) ↦ rw top refl
]

-- A step that is accepted goes to the next rung of the ladder, and there is none exactly at the
-- top, where no effort or a blank one counts as the lowest rung.
pub next_effort_step-IsStepUp :
    (current : Option String) {next : Option String}
    → next_effort_step current ≡ ok next
    → IsStepUp (or_first current) next
unfolding next_effort_step
next_effort_step-IsStepUp current {next} h =
    let (on_ladder, h') = ensure-bind-eq-ok (elem (or_first current) public_reasoning) _ _ h in
    let same : step_after (or_first current) public_reasoning ≡ next = cc in
    subst (IsStepUp (or_first current)) same (step_after-IsStepUp (or_first current) on_ladder)

-- `a` is as near to the target as `b`, and the lower of two that are equally near.
abbrev pub IsNoFarther : ℕ → String → String → Type 0
IsNoFarther target a b = nearer target b a ≡ false

pair_trans :
    (d r e q f s : ℕ)
    → pair_less e q d r ≡ false
    → pair_less f s e q ≡ false
    → pair_less f s d r ≡ false
pair_trans d r e q f s h k = ground arith

pair_asym : (d r e q : ℕ) → pair_less d r e q ≡ true → pair_less e q d r ≡ false
pair_asym d r e q h = ground arith

pair_irrefl : (d r : ℕ) → pair_less d r d r ≡ false
pair_irrefl d r = ground arith

nearer_trans : (t : ℕ) (a b c : String) → IsNoFarther t a b → IsNoFarther t b c → IsNoFarther t a c
unfolding nearer
nearer_trans t a b c h k =
    pair_trans (distance (rung a) t) (rung a) (distance (rung b) t) (rung b) (distance (rung c) t)
      (rung c) h k

nearer_asym : (t : ℕ) (a b : String) → nearer t a b ≡ true → IsNoFarther t a b
unfolding nearer
nearer_asym t a b h = pair_asym (distance (rung a) t) (rung a) (distance (rung b) t) (rung b) h

nearer_irrefl : (t : ℕ) (a : String) → IsNoFarther t a a
unfolding nearer
nearer_irrefl t a = pair_irrefl (distance (rung a) t) (rung a)

abbrev BestOf : ℕ → String → List String → String → Type 0
BestOf t best xs r = IsNoFarther t r best × All (IsNoFarther t r) xs

nearest_best : (t : ℕ) (best : String) (xs : List String) → BestOf t best xs (nearest t best xs)
unfolding nearest
nearest_best t best [] = (nearer_irrefl t best, tt)
nearest_best t best (x ∷ xs) = elim (Bool-cases (nearer t x best)) [
  | inl better ↦
      let (first, rest) = nearest_best t x xs in
      let step : nearest t best (x ∷ xs) ≡ nearest t x xs = ground arith in
      let to_best = nearer_trans t (nearest t x xs) x best first (nearer_asym t x best better) in
      subst (BestOf t best (x ∷ xs)) (sym step) (to_best, (first, rest))
  | inr worse ↦
      let (first, rest) = nearest_best t best xs in
      let step : nearest t best (x ∷ xs) ≡ nearest t best xs = ground arith in
      let to_x = nearer_trans t (nearest t best xs) best x first worse in
      subst (BestOf t best (x ∷ xs)) (sym step) (first, (to_x, rest))
]

elem-nearest :
    (t : ℕ) (best : String) (xs : List String) → elem (nearest t best xs) (best ∷ xs) ≡ true
unfolding nearest
elem-nearest t best [] = ground (arith, ==_refl best)
elem-nearest t best (x ∷ xs) = ground (arith, elem-nearest t x xs, elem-nearest t best xs)

requested_best :
    (t : ℕ) (a : String) (requested : String) → rung requested ≡ t → IsNoFarther t requested a
unfolding nearer
requested_best t a requested e = ground arith

-- The effort picked is one of the available ones, and none of those is nearer to the one asked for.
pub record IsNearest (requested : String) (available : List String) (e : String) : Type 0 where
  pub listed : elem e available ≡ true
  pub best : All (IsNoFarther (rung requested) e) available

All-const : (P : String → Type 0) (xs : List String) → ((x : String) → P x) → All P xs
All-const P [] f = tt
All-const P (x ∷ xs) f = (f x, All-const P xs f)

pick_effort-IsNearest :
    (requested : String) (available : List String) {e : String} {changed : Bool}
    → pick_effort requested available ≡ ok (e, changed)
    → IsNearest requested available e
unfolding pick_effort
pick_effort-IsNearest requested [] h = cc
pick_effort-IsNearest requested (x ∷ xs) {e} h = elim (Bool-cases (elem requested (x ∷ xs))) [
  | inl listed ↦
      let same : requested ≡ e = ground arith in
      subst (IsNearest requested (x ∷ xs)) same (record {
        listed = listed;
        best =
            All-const (IsNoFarther (rung requested) requested) (x ∷ xs)
              (λ a. requested_best (rung requested) a requested refl);
      })
  | inr absent ↦
      let same : nearest (rung requested) x xs ≡ e = ground arith in
      subst (IsNearest requested (x ∷ xs)) same (record {
        listed = elem-nearest (rung requested) x xs;
        best = nearest_best (rung requested) x xs;
      })
]

-- An effort that is resolved is one of the ladder that the model supports, and none of those is
-- nearer to the one asked for, or as near and lower.
pub resolve_reasoning-IsNearest :
    (requested : String) (supported : List String) {e : String} {changed : Bool}
    → resolve_reasoning requested supported ≡ ok (e, changed)
    → IsNearest requested (filter_by (λ r. elem r supported) public_reasoning) e
unfolding resolve_reasoning
resolve_reasoning-IsNearest requested supported h =
    let (_, h') = ensure-bind-eq-ok (elem requested public_reasoning) _ _ h in
    pick_effort-IsNearest requested (filter_by (λ r. elem r supported) public_reasoning) h'
