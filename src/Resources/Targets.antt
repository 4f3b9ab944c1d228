-- ===== src/Resources/Targets.antt =====
-- When two claims meet (claims_match, claims_conflict, _filesystem_targets_overlap, _glob_matches,
-- _glob_static_root, _is_within). `casefold` and `fnmatchcase` are parameters: Unicode's folding
-- table and the wildcard matcher of one path segment. Paths are POSIX.
pub mod Overlap
pub mod Globs
use Prim.Native.Char.{Char, code}
use Prim.Native.String as Text
use codex_autopilot.Prelude.{
  ℕ, zero, suc, ◌+◌, ◌-◌, ◌*◌, ◌/◌, ◌≤◌, ◌<◌, min, max, String, ◌≡◌, refl, sym, ap, ◌∙◌, subst, ◌≢◌,
  ◌↔◌, ◌⊎◌, inl, inr, Bool, true, false, not, ◌&&◌, ◌||◌, Option, none, some, List, [], ◌∷◌, ◌++◌,
  map, arith, eq_iff, ltb, leb, nat_eq, ◌==◌, if◌then◌else◌, ==_refl, Bool-cases, Option-cases,
  length, filter_by, any, all, All, All-append, All-map, All-elem, elem, IsDistinct, Dict, lookup,
  insert, keys, get_or, is_some, lookup-insert, lookup-insert_self, lookup-insert_ne, elem-keys,
  elem-keys-insert, All-lookup, All-insert, Result, ok, err, ◌>>=◌, ◌>>◌, ensure, or_raise,
  >>=-eq-ok, ensure-eq-ok, or_raise-eq-ok, ensure-bind-eq-ok, Result-cases, length-append, is_empty,
  filter_by_empty, filter_by_none, empty_of_is_empty, keys-insert_old, All-of_sort_by, append_empty,
  map_empty, filter_by_nil, All-snoc, count, count_absent, count_distinct, elem-append,
  filter_by_passes, elem-filter_by, All-of_elem, text_less, then_less, then_less_asym,
  then_less_trans, then_less_trans_down, text_less_asym, text_less_trans, bad_resource_state,
  bad_lock_owner, bad_execution_mode, token_is_bound, bad_claim, key_error, unknown_task_state,
  unknown_task_id, scheduler_graph_mismatch, active_mismatch, ready_age_unknown,
  serial_with_many_active, recursion_error, bad_availability, model_routing, sort_by, insert_sorted,
  IsSorted, sort_by-perm, sort_by-IsSorted, All-sort_by, All-insert_sorted,
}
use codex_autopilot.Resources.{NormalizedResourceClaim}

-- A character in front of the first piece.
prepend : Char → List String → List String
prepend c [] = Text.◌∷◌ c Text.[] ∷ []
prepend c (p ∷ ps) = Text.◌∷◌ c p ∷ ps

-- text.split("/"); the code of "/" is 47
unfoldable pub split_slash : String → List String
unfolding prepend
split_slash Text.[] = "" ∷ []
split_slash (Text.◌∷◌ c s) =
    let rest = split_slash s in if nat_eq (code c) 47 then "" ∷ rest else prepend c rest

abbrev starts_with_slash : List String → Bool
starts_with_slash (p ∷ q ∷ ps) = p == ""
starts_with_slash _ = false

-- PurePath(text).parts: no empty or "." pieces, and "/" in front of an absolute path; the root "//"
-- that POSIX keeps apart is read as "/"
unfoldable pub parts : String → List String
unfolding split_slash
parts text =
    let pieces = split_slash text in
    let named = filter_by (λ p. not (p == "" || p == ".")) pieces in
    if starts_with_slash pieces then "/" ∷ named else named

-- _has_magic: "*", "?" or "[" stands in the part
unfoldable pub has_magic : String → Bool
has_magic Text.[] = false
has_magic (Text.◌∷◌ c s) =
    let rest = has_magic s in
    (nat_eq (code c) 42 || nat_eq (code c) 63 || nat_eq (code c) 91) || rest

-- parts[:magic_at]
unfoldable pub before_magic : List String → List String
before_magic [] = []
before_magic (p ∷ ps) = let rest = before_magic ps in if has_magic p then [] else p ∷ rest

-- _glob_static_root, as the parts of the path it returns
unfoldable pub glob_static_root : String → List String
glob_static_root pattern =
    let literal = before_magic (parts pattern) in if is_empty literal then "/" ∷ [] else literal

abbrev pub is_rooted : List String → Bool
is_rooted [] = false
is_rooted (p ∷ ps) = p == "/"

abbrev same_bool : Bool → Bool → Bool
same_bool true b = b
same_bool false b = not b

unfoldable pub is_prefix : List String → List String → Bool
is_prefix [] ys = true
is_prefix (x ∷ xs) [] = false
is_prefix (x ∷ xs) (y ∷ ys) = x == y && is_prefix xs ys

-- _is_within: the path is the directory, or the directory is one of its parents
unfoldable pub is_within : List String → List String → Bool
is_within path directory =
    same_bool (is_rooted path) (is_rooted directory) && is_prefix directory path

-- _paths_nested
unfoldable pub paths_nested : List String → List String → Bool
paths_nested left right = is_within left right || is_within right left

-- the kinds of FILESYSTEM_RESOURCE_KINDS
abbrev pub is_filesystem : String → Bool
is_filesystem kind = kind == "path" || kind == "directory" || kind == "glob"

module _ (fnmatchcase : String → String → Bool) where
  -- The inner `match` of `_glob_matches`, on what is left of the pattern and of the path.
  unfoldable pub glob_match : List String → List String → Bool
  glob_match [] [] = true
  glob_match [] (x ∷ xs) = false
  glob_match (p ∷ ps) [] = p == "**" && glob_match ps []
  glob_match (p ∷ ps) (x ∷ xs) = elim (p == "**") [
    | true ↦ glob_match ps (x ∷ xs) || glob_match (p ∷ ps) xs
    | false ↦ fnmatchcase x p && glob_match ps xs
  ]

  unfoldable pub glob_matches : String → String → Bool
  glob_matches pattern path = glob_match (split_slash pattern) (split_slash path)

  -- _filesystem_targets_overlap on folded targets. The last line's `false` stands for the
  -- source's AssertionError, which the kinds that `claims_match` lets through never reach.
  unfoldable pub targets_overlap : String → String → String → String → Bool
  targets_overlap left_kind left right_kind right =
      if left_kind == "path" && right_kind == "path"
      then left == right
      else if left_kind == "directory" && right_kind == "directory"
      then paths_nested (parts left) (parts right)
      else if left_kind == "directory" && right_kind == "path"
      then is_within (parts right) (parts left)
      else if left_kind == "path" && right_kind == "directory"
      then is_within (parts left) (parts right)
      else if left_kind == "glob" && right_kind == "path"
      then glob_matches left right
      else if left_kind == "path" && right_kind == "glob"
      then glob_matches right left
      else if left_kind == "glob" && right_kind == "glob"
      then paths_nested (glob_static_root left) (glob_static_root right)
      else if left_kind == "glob" && right_kind == "directory"
      then paths_nested (glob_static_root left) (parts right)
      else if left_kind == "directory" && right_kind == "glob"
      then paths_nested (parts left) (glob_static_root right)
      else false

  module _ (casefold : String → String) where
    unfoldable pub claims_match : NormalizedResourceClaim → NormalizedResourceClaim → Bool
    claims_match left right =
        if is_filesystem left.kind && is_filesystem right.kind
        then targets_overlap left.kind (casefold left.target) right.kind (casefold right.target)
        else left.kind == right.kind && left.target == right.target

    unfoldable pub claims_conflict : NormalizedResourceClaim → NormalizedResourceClaim → Bool
    claims_conflict left right =
        if not (claims_match left right)
        then false
        else if left.access == "exclusive" || right.access == "exclusive"
        then true
        else not (left.access == "read" && right.access == "read")
