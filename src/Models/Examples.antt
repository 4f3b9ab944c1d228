-- ===== src/Models/Examples.antt =====
-- The effort ladder at concrete efforts.
use codex_autopilot.Prelude.{◌≡◌, refl, true, none, some, [], ◌∷◌, lookup, ok, err, model_routing}
use codex_autopilot.Models.{
  logical_model, next_effort_step, index_of, rung, nearer, nearest, pick_effort, resolve_reasoning,
  step_after,
}
use codex_autopilot.Models.Selection.{
  CatalogModel, ModelSelection, says, find_model, advertised, supported_efforts, resolve_selection,
  IsPinned, resolve_selection-IsPinned,
}

next_effort_step-high : next_effort_step (some "high") ≡ ok (some "xhigh")
unfolding next_effort_step step_after
next_effort_step-high = refl

resolve_reasoning-xhigh :
    resolve_reasoning "xhigh" ("low" ∷ "high" ∷ "medium" ∷ []) ≡ ok ("high", true)
unfolding resolve_reasoning pick_effort nearest nearer rung index_of
resolve_reasoning-xhigh = refl

abbrev served : CatalogModel
served = record { id = some "gpt-6-astra"; model = none; efforts = "low" ∷ "high" ∷ "medium" ∷ [] }

abbrev selection : ModelSelection
selection = record {
  key = "astra";
  model_id = "gpt-6-astra";
  display_name = "GPT-6 Astra";
  reasoning = "high";
  is_adjusted = true;
}

resolve_selection-astra :
    resolve_selection (served ∷ []) "auto" "computer_use" "xhigh" ≡ ok selection
unfolding resolve_selection logical_model lookup find_model says advertised supported_efforts
    resolve_reasoning pick_effort nearest nearer rung index_of
resolve_selection-astra = refl

-- An entry that is found by its id but advertises another model ends the selection.
resolve_selection-renamed :
    resolve_selection
      (record served { model = some "gpt-5-astra" } ∷ served ∷ [])
      "auto"
      "computer_use"
      "xhigh"
    ≡ err model_routing
unfolding resolve_selection logical_model lookup find_model says advertised supported_efforts
resolve_selection-renamed = refl

resolve_selection-IsPinned_example : IsPinned (served ∷ []) "auto" "computer_use" "xhigh" selection
resolve_selection-IsPinned_example =
    resolve_selection-IsPinned (served ∷ []) "auto" "computer_use" "xhigh" resolve_selection-astra
