-- ===== src/Resources/Conflicts.antt =====
-- Locks against locks: two bundles conflict when a claim of one conflicts with a claim of the other.
use codex_autopilot.Prelude.{String, Bool, true, not, ◌&&◌, List, [], ◌∷◌, any, all}
use codex_autopilot.Resources.{NormalizedResourceClaim, DurableResourceLock}
use codex_autopilot.Resources.Targets.{claims_conflict}

module _ (fnmatchcase : String → String → Bool) (casefold : String → String) where
  abbrev pub claim_meets : List NormalizedResourceClaim → NormalizedResourceClaim → Bool
  claim_meets others claim = any (λ other. claims_conflict fnmatchcase casefold claim other) others

  -- any(claims_conflict(left, right) for left in ... for right in ...)
  abbrev pub bundles_conflict : List NormalizedResourceClaim → List NormalizedResourceClaim → Bool
  bundles_conflict claims others = any (claim_meets others) claims

  -- No lock of the list conflicts with a later one.
  unfoldable pub all_apart : List DurableResourceLock → Bool
  all_apart [] = true
  all_apart (l ∷ ls) = all (λ o. not (bundles_conflict l.claims o.claims)) ls && all_apart ls
