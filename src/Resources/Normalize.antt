-- ===== src/Resources/Normalize.antt =====
-- The stable identity of a claim (normalize_claim, _normalize_glob, normalize_task_claims). What
-- the file system and Unicode's tables decide is a `Host`: links resolved, the compatibility form
-- NFKC, case folding, and the wildcard matcher of a path segment.
use Prim.Native.Char.{Char, code}
use Prim.Native.String as Text
use Prim.Native.String.{◌++◌ as ◌⊕◌}
use codex_autopilot.Prelude.{
  ℕ, String, Bool, true, false, not, ◌&&◌, ◌||◌, List, [], ◌∷◌, leb, nat_eq, ◌==◌, if◌then◌else◌,
  Result, ok, ◌>>=◌, ◌>>◌, ensure, is_empty, bad_claim,
}
use codex_autopilot.Plan.{ResourceClaim}
use codex_autopilot.Resources.{NormalizedResourceClaim}
use codex_autopilot.Resources.Targets.{parts, before_magic, is_rooted, has_magic}

pub record Host : Type 0 where
  -- str(path.resolve(strict=False))
  pub resolve : String → String
  -- unicodedata.normalize("NFKC", text)
  pub nfkc : String → String
  -- text.casefold()
  pub casefold : String → String
  -- fnmatch.fnmatchcase(name, pattern)
  pub fnmatchcase : String → String → Bool

unfoldable pub has_nul : String → Bool
has_nul Text.[] = false
has_nul (Text.◌∷◌ c s) = let rest = has_nul s in nat_eq (code c) 0 || rest

-- separator.join(pieces)
unfoldable pub join : String → List String → String
join separator [] = ""
join separator (p ∷ []) = p
join separator (p ∷ q ∷ ps) = p ⊕ (separator ⊕ join separator (q ∷ ps))

-- The characters that str.split() splits at.
abbrev pub is_space : ℕ → Bool
is_space n =
    (leb 9 n && leb n 13)
    || (leb 28 n && leb n 32)
    || nat_eq n 133
    || nat_eq n 160
    || nat_eq n 5760
    || (leb 8192 n && leb n 8202)
    || nat_eq n 8232
    || nat_eq n 8233
    || nat_eq n 8239
    || nat_eq n 8287
    || nat_eq n 12288

-- A character in front of the first word, or a new word before them.
abbrev into_word : Char → Bool → List String → List String
into_word c true [] = Text.◌∷◌ c Text.[] ∷ []
into_word c true (w ∷ ws) = Text.◌∷◌ c w ∷ ws
into_word c false ws = Text.◌∷◌ c Text.[] ∷ ws

abbrev opens_with_word : String → Bool
opens_with_word Text.[] = false
opens_with_word (Text.◌∷◌ c s) = not (is_space (code c))

-- text.split()
unfoldable pub words : String → List String
words Text.[] = []
words (Text.◌∷◌ c s) =
    let rest = words s in if is_space (code c) then rest else into_word c (opens_with_word s) rest

abbrev is_nothing : String → Bool
is_nothing Text.[] = true
is_nothing (Text.◌∷◌ c s) = false

unfoldable pub lstrip : String → String
lstrip Text.[] = ""
lstrip (Text.◌∷◌ c s) = let rest = lstrip s in if is_space (code c) then rest else Text.◌∷◌ c s

unfoldable pub rstrip : String → String
rstrip Text.[] = ""
rstrip (Text.◌∷◌ c s) =
    let rest = rstrip s in if is_nothing rest && is_space (code c) then "" else Text.◌∷◌ c rest

-- text.strip()
unfoldable pub strip : String → String
strip text = rstrip (lstrip text)

-- not text.strip()
unfoldable pub is_blank : String → Bool
is_blank text = is_nothing (strip text)

-- parts[magic_at:]
unfoldable pub from_magic : List String → List String
from_magic [] = []
from_magic (p ∷ ps) = let rest = from_magic ps in if has_magic p then p ∷ ps else rest

-- Path(*parts) as a text
unfoldable pub path_text : List String → String
path_text [] = "."
path_text (p ∷ ps) = if p == "/" then "/" ⊕ join "/" ps else join "/" (p ∷ ps)

-- root / raw, or raw alone if it is absolute
unfoldable pub under_root : String → List String → String
under_root root pieces =
    if is_rooted pieces then path_text pieces else root ⊕ ("/" ⊕ path_text pieces)

module _ (host : Host) (project_root : String) where
  unfoldable pub normalize_glob : String → String
  normalize_glob target =
      let prefix =
        host.resolve (under_root (host.resolve project_root) (before_magic (parts target))) in
      let suffix = from_magic (parts target) in
      if is_empty suffix
      then prefix
      else prefix ⊕ ((if prefix == "/" then "" else "/") ⊕ join "/" suffix)

  unfoldable pub normalized_target : String → String → String
  normalized_target kind target =
      if kind == "glob"
      then normalize_glob target
      else if kind == "path" || kind == "directory"
      then host.resolve (under_root (host.resolve project_root) (parts target))
      else host.casefold (join " " (words (host.nfkc target)))

  unfoldable pub normalize_claim : ResourceClaim → Result NormalizedResourceClaim
  normalize_claim claim = do
    ensure (not (has_nul claim.target)) bad_claim
    ok (record {
      id = claim.id;
      kind = claim.kind;
      target = normalized_target claim.kind claim.target;
      access = claim.access;
    })

  unfoldable pub normalize_claims : List ResourceClaim → Result (List NormalizedResourceClaim)
  normalize_claims [] = ok []
  normalize_claims (c ∷ cs) = do
    first ← normalize_claim c
    rest ← normalize_claims cs
    ok (first ∷ rest)
