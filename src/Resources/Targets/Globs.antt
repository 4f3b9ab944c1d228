-- ===== src/Resources/Targets/Globs.antt =====
-- The recursive matcher of `_glob_matches` against a relation that says what a pattern means.
use codex_autopilot.Prelude.{
  String, ◌≡◌, refl, ◌↔◌, inl, inr, Bool, true, false, List, [], ◌∷◌, ◌++◌, arith, ◌==◌, Bool-cases,
}
use codex_autopilot.Resources.Targets.{glob_match}

-- Segment by segment, where `**` stands for any number of segments.
pub data GlobMatch (fnmatchcase : String → String → Bool) : List String → List String → Type 0 where
  ends : GlobMatch fnmatchcase [] []
  segment :
      {ps xs : List String} (p x : String)
      → (p == "**") ≡ false
      → fnmatchcase x p ≡ true
      → GlobMatch fnmatchcase ps xs
      → GlobMatch fnmatchcase (p ∷ ps) (x ∷ xs)
  across :
      {ps xs : List String} (p : String) (skipped : List String)
      → (p == "**") ≡ true
      → GlobMatch fnmatchcase ps xs
      → GlobMatch fnmatchcase (p ∷ ps) (skipped ++ xs)

module _ (fnmatchcase : String → String → Bool) where
  -- One more segment under a pattern that begins with `**`.
  skip :
      (p : String) {ps xs : List String} (x : String)
      → (p == "**") ≡ true
      → GlobMatch fnmatchcase (p ∷ ps) xs
      → GlobMatch fnmatchcase (p ∷ ps) (x ∷ xs)
  skip p x star (segment q y plain hit rest) = absurd (cc (star, plain))
  skip p x star (across q skipped star' rest) = across p (x ∷ skipped) star rest

  glob_match_sound :
      (ps xs : List String) → glob_match fnmatchcase ps xs ≡ true → GlobMatch fnmatchcase ps xs
  unfolding glob_match
  glob_match_sound [] [] h = ends
  glob_match_sound [] (x ∷ xs) h = absurd (cc h)
  glob_match_sound (p ∷ ps) [] h =
      across p [] (ground arith) (glob_match_sound ps [] (ground arith))
  glob_match_sound (p ∷ ps) (x ∷ xs) h = elim (Bool-cases (p == "**")) [
    | inl star ↦ elim (Bool-cases (glob_match fnmatchcase ps (x ∷ xs))) [
      | inl stops ↦ across p [] star (glob_match_sound ps (x ∷ xs) stops)
      | inr goes ↦ skip p x star (glob_match_sound (p ∷ ps) xs (ground arith))
    ]
    | inr plain ↦ segment p x plain (ground arith) (glob_match_sound ps xs (ground arith))
  ]

  glob_match_skips :
      (p : String) (ps skipped xs : List String)
      → (p == "**") ≡ true
      → glob_match fnmatchcase ps xs ≡ true
      → glob_match fnmatchcase (p ∷ ps) (skipped ++ xs) ≡ true
  unfolding glob_match
  glob_match_skips p ps [] [] star h = ground arith
  glob_match_skips p ps [] (x ∷ xs) star h = ground arith
  glob_match_skips p ps (y ∷ ys) xs star h = ground (arith, glob_match_skips p ps ys xs star h)

  glob_match_complete :
      {ps xs : List String} → GlobMatch fnmatchcase ps xs → glob_match fnmatchcase ps xs ≡ true
  unfolding glob_match
  glob_match_complete ends = refl
  glob_match_complete (segment p x plain hit rest) = ground (arith, glob_match_complete rest)
  glob_match_complete (across {ps = ps} {xs = xs} p skipped star rest) =
      glob_match_skips p ps skipped xs star (glob_match_complete rest)

  -- The matcher answers true exactly where the segments of the path are those that the pattern
  -- means: one segment for a segment of the pattern that matches it, and any number of them for
  -- `**`.
  pub glob_match_iff :
      (ps xs : List String) → (glob_match fnmatchcase ps xs ≡ true) ↔ GlobMatch fnmatchcase ps xs
  glob_match_iff ps xs = (glob_match_sound ps xs, glob_match_complete)
