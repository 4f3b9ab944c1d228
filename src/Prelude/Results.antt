-- ===== src/Prelude/Results.antt =====
-- Code that may raise returns a `Result`. The exceptions of the modelled functions are values of
-- `Failure`; those that name tasks carry their ids.
use Prim.Native.String.{String}
use mathlib.Core.Path.{◌≡◌, refl}
use mathlib.Core.Logic.{◌⊎◌, inl, inr}
use mathlib.Core.Bool.{Bool, true, false}
use mathlib.Core.Option.{Option, none, some}
use mathlib.Core.List.{List}

pub data Failure : Type 0 where
  key_error : String → Failure
  -- task_state.py
  unknown_task_state unknown_task_id no_state_entry : String → Failure
  unknown_tasks missing_tasks : List String → Failure
  unmet_dependencies_of : String → List String → Failure
  state_map_mismatch independent_verification_required : String → Failure
  illegal_transition : String → Failure
  not_dependency_eligible : String → List String → Failure
  -- plan_verification.py
  plan_not_verified plan_graph_mismatch plan_digest_mismatch evidence_missing : Failure
  -- scheduler.py
  scheduler_graph_mismatch active_mismatch ready_age_unknown : Failure
  serial_with_many_active recursion_error : Failure
  bad_availability : Failure
  -- models.py
  model_routing : Failure
  -- plan_graph.py
  graph_cycle : Failure
  -- plan_parse.py
  not_unique : List String → Failure
  -- run_state.py
  invalid_state : Failure
  -- resilience.py
  plan_change_conflict plan_change_state_conflict plan_change_protocol bad_observation : Failure
  -- resources.py
  bad_resource_state bad_lock_owner bad_execution_mode token_is_bound bad_claim : Failure

pub data Result {ℓ} (A : Type ℓ) : Type ℓ where
  ok : A → Result A
  err : Failure → Result A

infixl 5 ◌>>=◌ ◌>>◌
abbrev pub ◌>>=◌ {ℓ κ} : {V : Type ℓ} {W : Type κ} → Result V → (V → Result W) → Result W
ok value >>= next = next value
err failure >>= next = err failure

abbrev pub ◌>>◌ {ℓ} : {W : Type ℓ} → Result (Unit {0}) → Result W → Result W
first >> second = first >>= λ done. second

-- if not test: raise failure
abbrev pub ensure : Bool → Failure → Result (Unit {0})
ensure true e = ok tt
ensure false e = err e

-- d[k], where a missing key raises
abbrev pub or_raise {ℓ} : {A : Type ℓ} → Option A → Failure → Result A
or_raise none e = err e
or_raise (some a) e = ok a

pub >>=-eq-ok {ℓ κ} :
    {V : Type ℓ} {W : Type κ} (first : Result V) (next : V → Result W) {w : W}
    → (first >>= next) ≡ ok w
    → (v : V) × (first ≡ ok v) × (next v ≡ ok w)
>>=-eq-ok (ok v) next passed = (v, refl, passed)
>>=-eq-ok (err failure) next passed = cc

pub ensure-eq-ok : (b : Bool) (e : Failure) {u : Unit {0}} → ensure b e ≡ ok u → b ≡ true
ensure-eq-ok true e h = refl
ensure-eq-ok false e h = cc

-- Inversion of a guard that has passed.
pub ensure-bind-eq-ok {ℓ} :
    {B : Type ℓ} (b : Bool) (e : Failure) (f : Unit {0} → Result B) {c : B}
    → (ensure b e >>= f) ≡ ok c
    → (b ≡ true) × (f tt ≡ ok c)
ensure-bind-eq-ok true e f h = (refl, h)
ensure-bind-eq-ok false e f h = cc

pub or_raise-eq-ok {ℓ} :
    {A : Type ℓ} (o : Option A) (e : Failure) {a : A} → or_raise o e ≡ ok a → o ≡ some a
or_raise-eq-ok none e h = cc
or_raise-eq-ok (some a) e h = cc

pub Result-cases {ℓ} :
    {A : Type ℓ} (r : Result A) → ((a : A) × (r ≡ ok a)) ⊎ ((e : Failure) × (r ≡ err e))
Result-cases (ok a) = inl (a, refl)
Result-cases (err e) = inr (e, refl)

pub bind-ok {ℓ} : {V : Type ℓ} (r : Result V) → (r >>= λ v. ok v) ≡ r
bind-ok (ok v) = refl
bind-ok (err failure) = refl

pub ok-injective {ℓ} : {V : Type ℓ} {a b : V} → ok a ≡ ok b → a ≡ b
ok-injective h = cc
