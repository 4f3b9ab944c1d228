-- ===== src/Models.antt =====
-- Model routing (src/codex_autopilot/models.py): which model a task runs on, the ladder of reasoning
-- efforts, and the nearest effort that the account's model supports.
pub mod Efforts
pub mod Selection
mod Examples
use codex_autopilot.Prelude.{
  ℕ, suc, ◌+◌, ◌-◌, String, Bool, true, false, not, ◌&&◌, ◌||◌, Option, none, some, List, [], ◌∷◌,
  Result, ok, err, ◌>>=◌, ◌>>◌, ensure, or_raise, elem, filter_by, ltb, leb, nat_eq, ◌==◌,
  if◌then◌else◌, model_routing,
}

abbrev strategies : List String
strategies = "auto" ∷ "sol-only" ∷ "astra-only" ∷ []

abbrev execution_modes : List String
execution_modes = "code" ∷ "computer_use" ∷ []

-- PUBLIC_REASONING
abbrev pub public_reasoning : List String
public_reasoning = "medium" ∷ "high" ∷ "xhigh" ∷ "max" ∷ []

unfoldable pub logical_model : String → String → Result String
logical_model strategy execution_mode = do
  ensure (elem strategy strategies) model_routing
  ensure (elem execution_mode execution_modes) model_routing
  let needs_computer = execution_mode == "computer_use"
  if strategy == "sol-only"
      then (if needs_computer then err model_routing else ok "sol")
      else if strategy == "astra-only"
      then ok "astra"
      else ok (if needs_computer then "astra" else "sol")

-- ladder.index(value)
pub index_of : String → List String → Option ℕ
index_of k [] = none
index_of k (x ∷ xs) =
    if x == k then some 0 else elim (index_of k xs) [ none ↦ none | some i ↦ some (suc i) ]

-- What stands behind the value on the ladder, if anything does.
step_after : String → List String → Option String
step_after k [] = none
step_after k (x ∷ []) = none
step_after k (x ∷ y ∷ ys) = if x == k then some y else step_after k (y ∷ ys)

-- `current or ladder[0]`
abbrev pub or_first : Option String → String
or_first none = "medium"
or_first (some c) = if c == "" then "medium" else c

pub next_effort_step : Option String → Result (Option String)
unfolding step_after
next_effort_step current = do
  ensure (elem (or_first current) public_reasoning) model_routing
  ok (step_after (or_first current) public_reasoning)

-- The place of an effort on the ladder; it is asked for those of the ladder only.
pub rung : String → ℕ
unfolding index_of
rung effort = elim (index_of effort public_reasoning) [ none ↦ 0 | some i ↦ i ]

abbrev pub distance : ℕ → ℕ → ℕ
distance a b = (a - b) + (b - a)

-- The pair (d, r) is less than (e, q), as Python orders tuples.
abbrev pub pair_less : ℕ → ℕ → ℕ → ℕ → Bool
pair_less d r e q = ltb d e || (nat_eq d e && ltb r q)

-- The key (abs(index - target), index) of `a` is less than that of `b`.
pub nearer : ℕ → String → String → Bool
unfolding rung
nearer target a b =
    pair_less (distance (rung a) target) (rung a) (distance (rung b) target) (rung b)

-- min(available, key=...): the first entry of the least key
nearest : ℕ → String → List String → String
nearest target best [] = best
nearest target best (x ∷ xs) = nearest target (if nearer target x best then x else best) xs

-- The effort to use, and whether it differs from the one asked for.
pick_effort : String → List String → Result (String × Bool)
pick_effort requested [] = err model_routing
pick_effort requested (x ∷ xs) =
    if elem requested (x ∷ xs)
    then ok (requested, false)
    else ok (nearest (rung requested) x xs, true)

pub resolve_reasoning : String → List String → Result (String × Bool)
unfolding pick_effort nearest nearer
resolve_reasoning requested supported = do
  ensure (elem requested public_reasoning) model_routing
  pick_effort requested (filter_by (λ e. elem e supported) public_reasoning)
