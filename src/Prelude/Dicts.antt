-- ===== src/Prelude/Dicts.antt =====
-- Python's `dict` with text keys: the entries in insertion order. Writing to a key that stands
-- already keeps its place.
use Prim.Native.String.{String}
use mathlib.Core.Path.{◌≡◌, refl, subst}
use mathlib.Core.Logic.{inl, inr}
use mathlib.Core.Bool.{Bool, true, false}
use mathlib.Core.Option.{Option, none, some}
use mathlib.Core.List.{List, [], ◌∷◌}
use native.Mathlib.Omega.{arith}
use text.Mathlib.TextEquality.{eq_iff}
use codex_autopilot.Prelude.Tests.{◌==◌, if◌then◌else◌, Bool-cases, ==_refl}
use codex_autopilot.Prelude.Lists.{All, elem}

abbrev pub Dict {ℓ} : Type ℓ → Type ℓ
Dict V = List (String × V)

module _ {ℓ} {V : Type ℓ} where
  -- d.get(k)
  unfoldable pub lookup : String → Dict V → Option V
  lookup k [] = none
  lookup k ((j, v) ∷ m) = if j == k then some v else lookup k m

  -- d[k] = v
  unfoldable pub insert : String → V → Dict V → Dict V
  insert key value [] = (key, value) ∷ []
  insert key value ((j, old) ∷ m) =
      if j == key then (key, value) ∷ m else (j, old) ∷ insert key value m

  -- list(d)
  abbrev pub keys : Dict V → List String
  keys [] = []
  keys ((k, v) ∷ m) = k ∷ keys m

  -- d.get(k, default)
  abbrev pub get_or : V → Option V → V
  get_or d none = d
  get_or d (some v) = v

  abbrev pub is_some : Option V → Bool
  is_some none = false
  is_some (some v) = true

  pub lookup-insert :
      (k j : String) (v : V) (m : Dict V)
      → lookup j (insert k v m) ≡ (if k == j then some v else lookup j m)
  unfolding lookup insert
  lookup-insert key j v [] = refl
  lookup-insert key j v (entry ∷ m) =
      let i = entry.0 in
      ground (arith, lookup-insert key j v m, eq_iff i j, eq_iff i key, eq_iff key j)

  pub lookup-insert_self : (k : String) (v : V) (m : Dict V) → lookup k (insert k v m) ≡ some v
  lookup-insert_self k v m = rw (lookup-insert, ==_refl k)

  pub lookup-insert_ne :
      (k j : String) (v : V) (m : Dict V) → (k == j) ≡ false → lookup j (insert k v m) ≡ lookup j m
  lookup-insert_ne k j v m h = rw (lookup-insert, h)

  -- A key is found exactly when it stands in the list of keys.
  pub elem-keys : (k : String) (m : Dict V) → elem k (keys m) ≡ is_some (lookup k m)
  unfolding lookup
  elem-keys k [] = refl
  elem-keys k ((j, v) ∷ m) = ground (arith, elem-keys k m)

  pub elem-keys-insert :
      (k j : String) (v : V) (m : Dict V)
      → elem j (keys (insert k v m)) ≡ (if k == j then true else elem j (keys m))
  elem-keys-insert k j v m =
      ground (arith, elem-keys j (insert k v m), elem-keys j m, lookup-insert k j v m)

  -- A fact about every entry, read at a key that is found.
  pub All-lookup {κ} :
      (P : String × V → Type κ) (m : Dict V) (k : String) (v : V)
      → All P m
      → lookup k m ≡ some v
      → P (k, v)
  unfolding lookup
  All-lookup P [] k v h e = ground arith
  All-lookup P ((j, w) ∷ m) k v h e = elim (Bool-cases (j == k)) [
    | inl same ↦
        subst (λ i. P (i, v)) ((eq_iff j k).0 same) (subst (λ u. P (j, u)) (ground arith) h.0)
    | inr other ↦ All-lookup P m k v h.1 (ground arith)
  ]

  pub All-insert {κ} :
      (P : String × V → Type κ) (m : Dict V) (k : String) (v : V)
      → All P m
      → P (k, v)
      → All P (insert k v m)
  unfolding insert
  All-insert P [] k v h new = (new, tt)
  All-insert P ((j, w) ∷ m) k v h new = elim (Bool-cases (j == k)) [
    | inl same ↦ rw same (new, h.1)
    | inr other ↦ rw other (h.0, All-insert P m k v h.1 new)
  ]

  -- Writing to a key that stands leaves the keys as they were.
  pub keys-insert_old :
      (k : String) (v : V) (m : Dict V) → elem k (keys m) ≡ true → keys (insert k v m) ≡ keys m
  unfolding insert
  keys-insert_old k v [] h = cc
  keys-insert_old k v ((j, w) ∷ m) h = elim (Bool-cases (j == k)) [
    | inl same ↦ ground (arith, eq_iff j k)
    | inr other ↦ rw (other, keys-insert_old k v m (rw other at h))
  ]

-- del d[k]
unfoldable pub delete {ℓ} : {V : Type ℓ} → String → Dict V → Dict V
delete k [] = []
delete k ((j, v) ∷ m) = if j == k then m else (j, v) ∷ delete k m
