-- ===== src/Prelude/Texts.antt =====
-- The order of texts, and the lexicographic chains that Python's tuples are compared by.
use Prim.Native.Nat.{ℕ, Ordering}
use Prim.Native.Char.{Char, code}
use Prim.Native.String.{String, compare}
use Prim.Native.String.compare as clause
use mathlib.Core.Path.{◌≡◌, ap}
use mathlib.Core.Bool.{Bool, true, false, ◌&&◌, ◌||◌}
use native.Mathlib.Omega.{arith}
use codex_autopilot.Prelude.Tests.{ltb, nat_eq}

-- Whether (x, rest) is less than (y, rest'), when the rests compare as given.
abbrev pub then_less : ℕ → ℕ → Bool → Bool
then_less x y rest = ltb x y || (nat_eq x y && rest)

pub then_less_asym :
    (x y : ℕ) (r s : Bool)
    → (r ≡ true → s ≡ false)
    → then_less x y r ≡ true
    → then_less y x s ≡ false
then_less_asym x y r s f h = ground arith

pub then_less_trans :
    (x y z : ℕ) (r s t : Bool)
    → (r ≡ false → s ≡ false → t ≡ false)
    → then_less y x r ≡ false
    → then_less z y s ≡ false
    → then_less z x t ≡ false
then_less_trans x y z r s t f h g = ground arith

-- The same for a component that is compared the other way round.
pub then_less_trans_down :
    (x y z : ℕ) (r s t : Bool)
    → (r ≡ false → s ≡ false → t ≡ false)
    → then_less x y r ≡ false
    → then_less y z s ≡ false
    → then_less x z t ≡ false
then_less_trans_down x y z r s t f h g = ground arith

abbrev is_lt : Ordering → Bool
is_lt Ordering.lt = true
is_lt _ = false

-- a < b, for texts
unfoldable pub text_less : String → String → Bool
text_less a b = is_lt (compare a b)

less-cons-cons :
    (c d : Char) (s t : String)
    → text_less (String.◌∷◌ c s) (String.◌∷◌ d t) ≡ then_less (code c) (code d) (text_less s t)
unfolding text_less
less-cons-cons c d s t = rw (clause.cons-cons c d s t) (ground arith)

less-nil-nil : text_less String.[] String.[] ≡ false
unfolding text_less
less-nil-nil = ap is_lt clause.nil-nil

less-nil-cons : (d : Char) (t : String) → text_less String.[] (String.◌∷◌ d t) ≡ true
unfolding text_less
less-nil-cons d t = ap is_lt (clause.nil-cons d t)

less-cons-nil : (c : Char) (s : String) → text_less (String.◌∷◌ c s) String.[] ≡ false
unfolding text_less
less-cons-nil c s = ap is_lt (clause.cons-nil c s)

pub text_less_asym : (s t : String) → text_less s t ≡ true → text_less t s ≡ false
text_less_asym String.[] String.[] h = less-nil-nil
text_less_asym String.[] (String.◌∷◌ d t) h = less-cons-nil d t
text_less_asym (String.◌∷◌ c s) String.[] h = ground (arith, less-cons-nil c s)
text_less_asym (String.◌∷◌ c s) (String.◌∷◌ d t) h = rw less-cons-cons (
    then_less_asym (code c) (code d) (text_less s t) (text_less t s) (text_less_asym s t)
      (rw less-cons-cons at h))

-- Standing no lower is transitive.
pub text_less_trans :
    (s t u : String) → text_less t s ≡ false → text_less u t ≡ false → text_less u s ≡ false
text_less_trans String.[] String.[] u h g = g
text_less_trans String.[] (String.◌∷◌ d t) String.[] h g = less-nil-nil
text_less_trans String.[] (String.◌∷◌ d t) (String.◌∷◌ e u) h g = less-cons-nil e u
text_less_trans (String.◌∷◌ c s) String.[] u h g = ground (arith, less-nil-cons c s)
text_less_trans (String.◌∷◌ c s) (String.◌∷◌ d t) String.[] h g = ground (arith, less-nil-cons d t)
text_less_trans (String.◌∷◌ c s) (String.◌∷◌ d t) (String.◌∷◌ e u) h g = rw less-cons-cons (
    then_less_trans (code c) (code d) (code e) (text_less t s) (text_less u t) (text_less u s)
      (text_less_trans s t u) (rw less-cons-cons at h) (rw less-cons-cons at g))
