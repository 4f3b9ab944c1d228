-- ===== src/Prelude/Sorting.antt =====
-- Python's `sorted` with a key: a stable insertion sort by a Boolean order.
use mathlib.Core.Path.{◌≡◌}
use mathlib.Core.Logic.{inl, inr}
use mathlib.Core.Bool.{Bool, true, false}
use mathlib.Core.List.{List, [], ◌∷◌, Perm}
use mathlib.Core.List.Perm
use codex_autopilot.Prelude.Tests.{if◌then◌else◌, Bool-cases}
use codex_autopilot.Prelude.Lists.{All, All-map}

module _ {ℓ} {A : Type ℓ} (before : A → A → Bool) where
  -- `x` is put in front of the first entry that does not stand strictly before it.
  unfoldable pub insert_sorted : A → List A → List A
  insert_sorted x [] = x ∷ []
  insert_sorted x (y ∷ ys) = if before y x then y ∷ insert_sorted x ys else x ∷ y ∷ ys

  unfoldable pub sort_by : List A → List A
  unfolding insert_sorted
  sort_by [] = []
  sort_by (x ∷ xs) = insert_sorted x (sort_by xs)

  -- No later entry stands strictly before an earlier one.
  abbrev pub IsSorted : List A → Type 0
  IsSorted [] = Unit
  IsSorted (x ∷ xs) = All (λ y. before y x ≡ false) xs × IsSorted xs

  pub insert_sorted-perm : (x : A) (xs : List A) → Perm (insert_sorted x xs) (x ∷ xs)
  unfolding insert_sorted
  insert_sorted-perm x [] = Perm.refl (x ∷ [])
  insert_sorted-perm x (y ∷ ys) = elim (Bool-cases (before y x)) [
    | inl first ↦ rw first (Perm.trans (Perm.cons y (insert_sorted-perm x ys)) (Perm.swap x y ys))
    | inr last ↦ rw last (Perm.refl (x ∷ y ∷ ys))
  ]

  -- Sorting loses nothing and adds nothing.
  pub sort_by-perm : (xs : List A) → Perm (sort_by xs) xs
  unfolding sort_by
  sort_by-perm [] = Perm.refl []
  sort_by-perm (x ∷ xs) =
      Perm.trans (insert_sorted-perm x (sort_by xs)) (Perm.cons x (sort_by-perm xs))

  pub All-insert_sorted {κ} :
      (P : A → Type κ) (x : A) (xs : List A) → P x → All P xs → All P (insert_sorted x xs)
  unfolding insert_sorted
  All-insert_sorted P x [] hx h = (hx, tt)
  All-insert_sorted P x (y ∷ ys) hx h = elim (Bool-cases (before y x)) [
    | inl first ↦ rw first (h.0, All-insert_sorted P x ys hx h.1)
    | inr last ↦ rw last (hx, h)
  ]

  pub All-sort_by {κ} : (P : A → Type κ) (xs : List A) → All P xs → All P (sort_by xs)
  unfolding sort_by
  All-sort_by P [] h = tt
  All-sort_by P (x ∷ xs) h = All-insert_sorted P x (sort_by xs) h.0 (All-sort_by P xs h.1)

  -- A strict order: what stands before is not stood before, and standing behind is transitive.
  module _ (asym : (x y : A) → before x y ≡ true → before y x ≡ false)
      (trans : (x y z : A) → before y x ≡ false → before z y ≡ false → before z x ≡ false) where
    insert_sorted-IsSorted : (x : A) (xs : List A) → IsSorted xs → IsSorted (insert_sorted x xs)
    unfolding insert_sorted
    insert_sorted-IsSorted x [] h = (tt, tt)
    insert_sorted-IsSorted x (y ∷ ys) h = elim (Bool-cases (before y x)) [
      | inl first ↦ rw first (
        All-insert_sorted (λ z. before z y ≡ false) x ys (asym y x first) h.0,
        insert_sorted-IsSorted x ys h.1,
      )
      | inr last ↦ rw last ((last, All-map ys (λ z e. trans x y z last e) h.0), h)
    ]

    pub sort_by-IsSorted : (xs : List A) → IsSorted (sort_by xs)
    unfolding sort_by
    sort_by-IsSorted [] = tt
    sort_by-IsSorted (x ∷ xs) = insert_sorted-IsSorted x (sort_by xs) (sort_by-IsSorted xs)

  All-of_insert_sorted {κ} :
      (P : A → Type κ) (x : A) (xs : List A) → All P (insert_sorted x xs) → P x × All P xs
  unfolding insert_sorted
  All-of_insert_sorted P x [] h = (h.0, tt)
  All-of_insert_sorted P x (y ∷ ys) h = elim (Bool-cases (before y x)) [
    | inl first ↦
        let h' = rw first at h in
        let (here, rest) = All-of_insert_sorted P x ys h'.1 in (here, (h'.0, rest))
    | inr last ↦ let h' = rw last at h in (h'.0, h'.1)
  ]

  -- A fact about every entry of the sorted list holds of every entry given.
  pub All-of_sort_by {κ} : (P : A → Type κ) (xs : List A) → All P (sort_by xs) → All P xs
  unfolding sort_by
  All-of_sort_by P [] h = tt
  All-of_sort_by P (x ∷ xs) h =
      let (here, rest) = All-of_insert_sorted P x (sort_by xs) h in (here, All-of_sort_by P xs rest)
