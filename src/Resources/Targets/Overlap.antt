-- ===== src/Resources/Targets/Overlap.antt =====
-- A conflict does not depend on which of two claims is asked first.
use codex_autopilot.Prelude.{
  String, ◌≡◌, refl, ◌⊎◌, inl, inr, Bool, true, ◌||◌, List, arith, eq_iff, ◌==◌, Bool-cases,
}
use codex_autopilot.Resources.{NormalizedResourceClaim}
use codex_autopilot.Resources.Targets.{
  paths_nested, is_within, parts, glob_static_root, is_filesystem, targets_overlap, claims_match,
  claims_conflict,
}

or_comm : (a b : Bool) → (a || b) ≡ (b || a)
or_comm a b = ground arith

==_comm : (a b : String) → (a == b) ≡ (b == a)
==_comm a b = ground (arith, eq_iff a b, eq_iff b a)

paths_nested_comm : (a b : List String) → paths_nested a b ≡ paths_nested b a
unfolding paths_nested
paths_nested_comm a b = or_comm (is_within a b) (is_within b a)

kind_cases : (k : String) → is_filesystem k ≡ true → (k ≡ "path") ⊎ (k ≡ "directory") ⊎ (k ≡ "glob")
kind_cases k h = ground (arith, eq_iff k "path", eq_iff k "directory", eq_iff k "glob")

module _ (fnmatchcase : String → String → Bool) (casefold : String → String) where
  targets_overlap_comm :
      (j s k t : String)
      → is_filesystem j ≡ true
      → is_filesystem k ≡ true
      → targets_overlap fnmatchcase j s k t ≡ targets_overlap fnmatchcase k t j s
  unfolding targets_overlap
  targets_overlap_comm j s k t hj hk = elim (kind_cases j hj) [
    | inl path ↦ elim (kind_cases k hk) [
      | inl path' ↦ rw (path, path') (==_comm s t)
      | inr (inl directory') ↦ rw (path, directory') refl
      | inr (inr glob') ↦ rw (path, glob') refl
    ]
    | inr (inl directory) ↦ elim (kind_cases k hk) [
      | inl path' ↦ rw (directory, path') refl
      | inr (inl directory') ↦ rw (directory, directory') (paths_nested_comm (parts s) (parts t))
      | inr (inr glob') ↦ rw (directory, glob') (paths_nested_comm (parts s) (glob_static_root t))
    ]
    | inr (inr glob) ↦ elim (kind_cases k hk) [
      | inl path' ↦ rw (glob, path') refl
      | inr (inl directory') ↦
          rw (glob, directory') (paths_nested_comm (glob_static_root s) (parts t))
      | inr (inr glob') ↦
          rw (glob, glob') (paths_nested_comm (glob_static_root s) (glob_static_root t))
    ]
  ]

  claims_match_comm :
      (l r : NormalizedResourceClaim)
      → claims_match fnmatchcase casefold l r ≡ claims_match fnmatchcase casefold r l
  unfolding claims_match
  claims_match_comm l r = elim (Bool-cases (is_filesystem l.kind)) [
    | inl left ↦ elim (Bool-cases (is_filesystem r.kind)) [
      | inl right ↦
          rw (left, right)
            (targets_overlap_comm l.kind (casefold l.target) r.kind (casefold r.target) left right)
      | inr other ↦ rw (left, other, ==_comm l.kind r.kind, ==_comm l.target r.target) refl
    ]
    | inr other ↦ elim (Bool-cases (is_filesystem r.kind)) [
      | inl right ↦ rw (other, right, ==_comm l.kind r.kind, ==_comm l.target r.target) refl
      | inr other' ↦ rw (other, other', ==_comm l.kind r.kind, ==_comm l.target r.target) refl
    ]
  ]

  -- Whether two claims conflict is the same from either side, whatever the folding and the wildcard
  -- matcher are.
  pub claims_conflict_comm :
      (l r : NormalizedResourceClaim)
      → claims_conflict fnmatchcase casefold l r ≡ claims_conflict fnmatchcase casefold r l
  unfolding claims_conflict
  claims_conflict_comm l r = ground (arith, claims_match_comm l r)
