-- ===== src/Prelude/Lists.antt =====
-- Lists measured by native numbers, searched by Boolean tests, and predicates over their entries.
use Prim.Native.Nat.{ℕ, suc, ◌+◌, ◌≤◌}
use Prim.Native.String.{String}
use mathlib.Core.Path.{◌≡◌, refl, subst}
use mathlib.Core.Logic.{inl, inr}
use mathlib.Core.Bool.{Bool, true, false, ◌&&◌, ◌||◌}
use mathlib.Core.List.{map, List, [], ◌∷◌, ◌++◌}
use native.Mathlib.Omega.{arith}
use text.Mathlib.TextEquality.{eq_iff}
use codex_autopilot.Prelude.Tests.{◌==◌, if◌then◌else◌, Bool-cases}

module _ {ℓ} {A : Type ℓ} where
  abbrev pub length : List A → ℕ
  length [] = 0
  length (x ∷ xs) = suc (length xs)

  -- A comprehension with an `if`: the entries that pass the test, in order.
  abbrev pub filter_by : (A → Bool) → List A → List A
  filter_by p [] = []
  filter_by p (x ∷ xs) = let rest = filter_by p xs in if p x then x ∷ rest else rest

  abbrev pub any : (A → Bool) → List A → Bool
  any p [] = false
  any p (x ∷ xs) = p x || any p xs

  abbrev pub all : (A → Bool) → List A → Bool
  all p [] = true
  all p (x ∷ xs) = p x && all p xs

  abbrev pub All {κ} : (A → Type κ) → List A → Type κ
  All P [] = Unit
  All P (x ∷ xs) = P x × All P xs

-- `k in keys`
abbrev pub elem : String → List String → Bool
elem k [] = false
elem k (x ∷ xs) = x == k || elem k xs

-- No text stands twice.
abbrev pub IsDistinct : List String → Type 0
IsDistinct [] = Unit
IsDistinct (x ∷ xs) = (elem x xs ≡ false) × IsDistinct xs

module _ {ℓ} {A : Type ℓ} where
  pub length-append : (xs ys : List A) → length (xs ++ ys) ≡ length xs + length ys
  length-append [] ys = omega arith
  length-append (x ∷ xs) ys = omega (arith, length-append xs ys)

  pub length-filter_by-le : (p : A → Bool) (xs : List A) → length (filter_by p xs) ≤ length xs
  length-filter_by-le p [] = omega arith
  length-filter_by-le p (x ∷ xs) = ground (arith, length-filter_by-le p xs)

  pub All-append {κ} :
      (P : A → Type κ) (front back : List A) → All P front → All P back → All P (front ++ back)
  All-append P [] back first last = last
  All-append P (x ∷ front) back (here, later) last = (here, All-append P front back later last)

  pub All-map {κ μ} :
      {P : A → Type κ} {Q : A → Type μ} (xs : List A) → ((x : A) → P x → Q x) → All P xs → All Q xs
  All-map [] f h = tt
  All-map (x ∷ xs) f h = (f x h.0, All-map xs f h.1)

-- A universal fact about the texts of a list, read at one of them.
pub All-elem {κ} :
    (P : String → Type κ) (xs : List String) (k : String) → All P xs → elem k xs ≡ true → P k
All-elem P [] k h m = ground arith
All-elem P (x ∷ xs) k h m = elim (Bool-cases (x == k)) [
  | inl same ↦ subst P ((eq_iff x k).0 same) h.0
  | inr other ↦ All-elem P xs k h.1 (ground arith)
]

abbrev pub is_empty {ℓ} : {A : Type ℓ} → List A → Bool
is_empty [] = true
is_empty (x ∷ xs) = false

-- A filter leaves nothing exactly when every entry fails its test.
pub filter_by_empty {ℓ} :
    {A : Type ℓ} (p : A → Bool) (xs : List A)
    → is_empty (filter_by p xs) ≡ true
    → All (λ x. p x ≡ false) xs
filter_by_empty p [] h = tt
filter_by_empty p (x ∷ xs) h = elim (Bool-cases (p x)) [
  | inl passes ↦ ground arith
  | inr fails ↦ (fails, filter_by_empty p xs (rw fails at h))
]

pub filter_by_none {ℓ} :
    {A : Type ℓ} (p : A → Bool) (xs : List A) → All (λ x. p x ≡ false) xs → filter_by p xs ≡ []
filter_by_none p [] h = refl
filter_by_none p (x ∷ xs) h = rw (h.0, filter_by_none p xs h.1)

pub empty_of_is_empty {ℓ} : {A : Type ℓ} (xs : List A) → is_empty xs ≡ true → xs ≡ []
empty_of_is_empty [] h = refl
empty_of_is_empty (x ∷ xs) h = cc

-- What a filter leaves passes its test.
pub filter_by_passes {ℓ} :
    {A : Type ℓ} (p : A → Bool) (xs : List A) → All (λ x. p x ≡ true) (filter_by p xs)
filter_by_passes p [] = tt
filter_by_passes p (x ∷ xs) = elim (Bool-cases (p x)) [
  | inl passes ↦ rw passes (passes, filter_by_passes p xs)
  | inr fails ↦ rw fails (filter_by_passes p xs)
]

-- A text that passes the test is left.
pub elem-filter_by :
    (p : String → Bool) (xs : List String) (k : String) → elem k (filter_by p xs) ≡ elem k xs && p k
elem-filter_by p [] k = refl
elem-filter_by p (x ∷ xs) k = ground (arith, elem-filter_by p xs k, eq_iff x k)

pub All-of_elem {κ} :
    (P : String → Type κ) (xs : List String) → ((k : String) → elem k xs ≡ true → P k) → All P xs
All-of_elem P [] f = tt
All-of_elem P (x ∷ xs) f =
    (f x (ground (arith, (eq_iff x x).1 refl)), All-of_elem P xs (λ k m. f k (ground arith)))

module _ {ℓ} {A : Type ℓ} where
  -- A concatenation is empty only if both parts are.
  pub append_empty : (xs ys : List A) → xs ++ ys ≡ [] → (xs ≡ []) × (ys ≡ [])
  append_empty [] ys h = (refl, h)
  append_empty (x ∷ xs) ys h = cc

  pub map_empty {κ} : {B : Type κ} (f : A → B) (xs : List A) → map f xs ≡ [] → xs ≡ []
  map_empty f [] h = refl
  map_empty f (x ∷ xs) h = cc

  -- Where a filter leaves nothing, every entry fails its test.
  pub filter_by_nil : (p : A → Bool) (xs : List A) → filter_by p xs ≡ [] → All (λ x. p x ≡ false) xs
  filter_by_nil p xs h = filter_by_empty p xs (rw h refl)

  pub All-snoc {κ} : (P : A → Type κ) (xs : List A) (x : A) → All P xs → P x → All P (xs ++ x ∷ [])
  All-snoc P xs x h hx = All-append P xs (x ∷ []) h (hx, tt)

-- How often a text stands in a list.
unfoldable pub count : String → List String → ℕ
count k [] = 0
count k (x ∷ xs) = let n = count k xs in if x == k then suc n else n

pub count_absent : (k : String) (xs : List String) → elem k xs ≡ false → count k xs ≡ 0
unfolding count
count_absent k [] h = refl
count_absent k (x ∷ xs) h = ground (arith, count_absent k xs)

pub count_distinct : (k : String) (xs : List String) → IsDistinct xs → count k xs ≤ 1
unfolding count
count_distinct k [] h = omega arith
count_distinct k (x ∷ xs) h =
    ground (arith, count_distinct k xs h.1, count_absent k xs, eq_iff x k, h.0)

pub elem-append : (k : String) (xs ys : List String) → elem k (xs ++ ys) ≡ (elem k xs || elem k ys)
elem-append k [] ys = refl
elem-append k (x ∷ xs) ys = ground (arith, elem-append k xs ys)

pub append_nil {ℓ} : {A : Type ℓ} (xs : List A) → xs ++ [] ≡ xs
append_nil [] = refl
append_nil (x ∷ xs) = rw (append_nil xs) refl

-- Two facts about every entry, put together.
pub All-zip {ℓ κ μ ν} :
    {A : Type ℓ} {P : A → Type κ} {Q : A → Type μ} {R : A → Type ν} (xs : List A)
    → ((x : A) → P x → Q x → R x)
    → All P xs
    → All Q xs
    → All R xs
All-zip [] f p q = tt
All-zip (x ∷ xs) f p q = (f x p.0 q.0, All-zip xs f p.1 q.1)

-- xs == ys
abbrev pub same_texts : List String → List String → Bool
same_texts [] [] = true
same_texts (x ∷ xs) (y ∷ ys) = x == y && same_texts xs ys
same_texts _ _ = false
