-- ===== src/Models/Selection.antt =====
-- The model and effort that a session starts with (resolve_selection of
-- src/codex_autopilot/models.py). A catalog's entry is read into its texts; the texts of a refusal
-- and of the reason for a selection are left out.
use codex_autopilot.Prelude.{
  String, ◌≡◌, sym, subst, inl, inr, Bool, false, ◌||◌, Option, none, some, List, [], ◌∷◌, eq_iff,
  ◌==◌, if◌then◌else◌, Bool-cases, filter_by, elem, Dict, lookup, get_or, Result, ok, ◌>>=◌, ◌>>◌,
  ensure, or_raise, >>=-eq-ok, or_raise-eq-ok, ensure-bind-eq-ok, ok-injective, key_error,
  model_routing,
}
use codex_autopilot.Models.{logical_model, public_reasoning, resolve_reasoning}
use codex_autopilot.Models.Efforts.{IsNearest, resolve_reasoning-IsNearest}

-- MODEL_IDS
abbrev pub model_ids : Dict String
model_ids = ("sol", "gpt-6-sol") ∷ ("astra", "gpt-6-astra") ∷ []

-- MODEL_LABELS
abbrev pub model_labels : Dict String
model_labels = ("sol", "GPT-6 Sol") ∷ ("astra", "GPT-6 Astra") ∷ []

-- An entry of the catalog; the efforts are the reasoningEffort of each supported effort.
pub record CatalogModel : Type 0 where
  pub id : Option String
  pub model : Option String
  pub efforts : List String

pub record ModelSelection : Type 0 where
  pub key : String
  pub model_id : String
  pub display_name : String
  pub reasoning : String
  pub is_adjusted : Bool

unfoldable pub says : Option String → String → Bool
says none t = false
says (some s) t = s == t

-- The first entry with the id, under either name.
unfoldable pub find_model : String → List CatalogModel → Option CatalogModel
find_model expected [] = none
find_model expected (x ∷ xs) =
    if says x.id expected || says x.model expected then some x else find_model expected xs

-- `a or b or ""`
unfoldable pub advertised : CatalogModel → String
advertised item =
    let id = get_or "" item.id in
    let model = get_or "" item.model in if model == "" then id else model

unfoldable pub supported_efforts : CatalogModel → List String
supported_efforts item = filter_by (λ e. elem e public_reasoning) item.efforts

unfoldable pub resolve_selection :
    List CatalogModel → String → String → String → Result ModelSelection
resolve_selection catalog strategy execution_mode requested = do
  key ← logical_model strategy execution_mode
  expected ← or_raise (lookup key model_ids) (key_error key)
  model ← or_raise (find_model expected catalog) model_routing
  ensure (advertised model == expected) model_routing
  (reasoning, adjusted) ← resolve_reasoning requested (supported_efforts model)
  label ← or_raise (lookup key model_labels) (key_error key)
  ok (record {
    key = key;
    model_id = expected;
    display_name = label;
    reasoning = reasoning;
    is_adjusted = adjusted;
  })

-- What a selection promises: the pinned model of the routed key, served under exactly that name by
-- an entry that stands in the catalog, and the nearest effort that this entry supports.
pub record IsPinned (catalog : List CatalogModel) (strategy execution_mode requested : String)
    (s : ModelSelection) : Type 0 where
  pub routed : logical_model strategy execution_mode ≡ ok s.key
  pub pinned : lookup s.key model_ids ≡ some s.model_id
  pub capable : execution_mode ≡ "computer_use" → s.model_id ≡ "gpt-6-astra"
  pub entry : CatalogModel
  pub found : find_model s.model_id catalog ≡ some entry
  pub served : advertised entry ≡ s.model_id
  pub nearest :
      IsNearest requested
        (filter_by (λ r. elem r (supported_efforts entry)) public_reasoning)
        s.reasoning

computer_use_lem :
    (strategy : String) {key : String}
    → logical_model strategy "computer_use" ≡ ok key
    → key ≡ "astra"
unfolding logical_model
computer_use_lem strategy {key} h =
    let (_, h₁) =
      ensure-bind-eq-ok (elem strategy ("auto" ∷ "sol-only" ∷ "astra-only" ∷ [])) _ _ h in
    elim (Bool-cases (strategy == "sol-only")) [
      | inl sol ↦ absurd (cc (rw sol at h₁))
      | inr other ↦ elim (Bool-cases (strategy == "astra-only")) [
        | inl astra ↦ sym (ok-injective (rw (other, astra) at h₁))
        | inr auto ↦ sym (ok-injective (rw (other, auto) at h₁))
      ]
    ]

capable_lem :
    (strategy execution_mode : String) {key model_id : String}
    → logical_model strategy execution_mode ≡ ok key
    → lookup key model_ids ≡ some model_id
    → execution_mode ≡ "computer_use"
    → model_id ≡ "gpt-6-astra"
unfolding lookup
capable_lem strategy execution_mode {key} {model_id} routed pinned needs =
    let key_is : key ≡ "astra" =
      computer_use_lem strategy (subst (λ m. logical_model strategy m ≡ ok key) needs routed) in
    let found : lookup "astra" model_ids ≡ some model_id =
      subst (λ k. lookup k model_ids ≡ some model_id) key_is pinned in
    cc found

-- A selection that is made is the pinned model of the routed key, Computer Use goes to Astra only,
-- the first entry of the catalog with that id advertises exactly it, and the effort is the nearest
-- to the one asked for of those that the entry supports.
pub resolve_selection-IsPinned :
    (catalog : List CatalogModel) (strategy execution_mode requested : String) {s : ModelSelection}
    → resolve_selection catalog strategy execution_mode requested ≡ ok s
    → IsPinned catalog strategy execution_mode requested s
unfolding resolve_selection
resolve_selection-IsPinned catalog strategy execution_mode requested {s} h =
    let (key, routed, h₁) = >>=-eq-ok (logical_model strategy execution_mode) _ h in
    let (expected, pinned, h₂) = >>=-eq-ok (or_raise (lookup key model_ids) _) _ h₁ in
    let (entry, found, h₃) = >>=-eq-ok (or_raise (find_model expected catalog) _) _ h₂ in
    let (served, h₄) = ensure-bind-eq-ok (advertised entry == expected) _ _ h₃ in
    let (pair, resolved, h₅) =
      >>=-eq-ok (resolve_reasoning requested (supported_efforts entry)) _ h₄ in
    let (label, _, h₆) = >>=-eq-ok (or_raise (lookup key model_labels) _) _ h₅ in
    let held = or_raise-eq-ok (lookup key model_ids) _ pinned in
    subst (IsPinned catalog strategy execution_mode requested) (ok-injective h₆) (record {
      routed = routed;
      pinned = held;
      capable = capable_lem strategy execution_mode routed held;
      entry = entry;
      found = or_raise-eq-ok (find_model expected catalog) _ found;
      served = (eq_iff (advertised entry) expected).0 served;
      nearest = resolve_reasoning-IsNearest requested (supported_efforts entry) resolved;
    })
