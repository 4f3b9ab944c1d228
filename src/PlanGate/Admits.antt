-- ===== src/PlanGate/Admits.antt =====
-- What the gate admits, and that a written receipt is read back.
use Prim.Native.String as Text
use codex_autopilot.Prelude.{
  ℕ, ◌<◌, String, ◌≡◌, refl, true, false, not, Option, none, some, List, [], ◌∷◌, map, arith,
  eq_iff, leb, ◌==◌, all, All, elem, Dict, lookup, ok, >>=-eq-ok, is_empty,
}
use codex_autopilot.Plan.{Plan}
use codex_autopilot.Resources.Normalize.{strip}
use codex_autopilot.PlanGate.{
  Json, text, texts, number, Receipt, plan_verification_role, is_filled, modes, to_dict,
  required_text, positive, all_distinct, string_array, optional_text, read_receipt, check_receipt,
  validate_plan_verification_receipt, require_plan_verified,
}

-- A PASS by the plan verifier on this very graph, with recorded evidence.
pub record IsPass (digest : Plan → String) (plan : Plan) (r : Receipt) : Type 0 where
  pub schema : r.schema_version ≡ 1
  pub mode : elem r.mode modes ≡ true
  pub passed : (r.status ≡ "PLAN_VERIFIED") × (r.verdict ≡ "PASS")
  pub by_verifier : r.verifier_role ≡ plan_verification_role
  pub this_version : r.graph_version ≡ plan.graph_version
  pub this_graph : r.plan_sha256 ≡ digest plan
  pub evidence : (is_empty r.evidence_ids ≡ false) × (is_filled r.verification_result_id ≡ true)

-- A text that is read as it is: trimmed, filled and no longer than the limit.
pub record IsText (maximum : ℕ) (t : String) : Type 0 where
  pub trimmed : strip t ≡ t
  pub filled : (t == "") ≡ false
  pub short : leb (Text.len t) maximum ≡ true

-- A receipt whose fields are read as they are.
pub record IsReadable (r : Receipt) : Type 0 where
  pub schema : 0 < r.schema_version
  pub version : 0 < r.graph_version
  pub status : IsText 64 r.status
  pub plan_sha256 : IsText 64 r.plan_sha256
  pub mode : IsText 64 r.mode
  pub verdict : IsText 16 r.verdict
  pub role : IsText 128 r.verifier_role
  pub thread : IsText 256 r.verifier_thread_id
  pub turn : IsText 256 r.verifier_turn_id
  pub at : IsText 128 r.verified_at
  pub evidence :
      All (λ t. (strip t ≡ t) × ((t == "") ≡ false)) r.evidence_ids
      × (all_distinct r.evidence_ids ≡ true)
  pub result : (t : String) → r.verification_result_id ≡ some t → IsText 128 t

required_text-ok :
    (maximum : ℕ) (t : String) → IsText maximum t → required_text maximum (some (text t)) ≡ ok t
unfolding required_text
required_text-ok maximum t h = rw (h.trimmed, h.filled, h.short) refl

positive-ok : (n : ℕ) → 0 < n → positive (some (number n)) ≡ ok n
unfolding positive
positive-ok n h = ground (arith, h)

strip_all :
    (xs : List String) → All (λ t. (strip t ≡ t) × ((t == "") ≡ false)) xs → map strip xs ≡ xs
strip_all [] h = refl
strip_all (x ∷ xs) h = rw (h.0.0, strip_all xs h.1) refl

filled_all :
    (xs : List String)
    → All (λ t. (strip t ≡ t) × ((t == "") ≡ false)) xs
    → all (λ t. not (strip t == "")) xs ≡ true
filled_all [] h = refl
filled_all (x ∷ xs) h = rw (h.0.0, h.0.1) (filled_all xs h.1)

string_array-ok :
    (xs : List String)
    → All (λ t. (strip t ≡ t) × ((t == "") ≡ false)) xs
    → all_distinct xs ≡ true
    → string_array (some (texts xs)) ≡ ok xs
unfolding string_array
string_array-ok xs h apart = rw (filled_all xs h, strip_all xs h, apart) refl

read_back :
    (r : Receipt) (o : Option String)
    → IsReadable r
    → ((t : String) → o ≡ some t → IsText 128 t)
    → read_receipt (to_dict (record r { verification_result_id = o }))
      ≡ ok (record r { verification_result_id = o })
unfolding read_receipt to_dict lookup optional_text
read_back r none h result =
    rw
      (
        string_array-ok r.evidence_ids h.evidence.0 h.evidence.1,
        positive-ok r.schema_version h.schema,
        required_text-ok 64 r.status h.status,
        positive-ok r.graph_version h.version,
        required_text-ok 64 r.plan_sha256 h.plan_sha256,
        required_text-ok 64 r.mode h.mode,
        required_text-ok 16 r.verdict h.verdict,
        required_text-ok 128 r.verifier_role h.role,
        required_text-ok 256 r.verifier_thread_id h.thread,
        required_text-ok 256 r.verifier_turn_id h.turn,
        required_text-ok 128 r.verified_at h.at,
      )
      refl
read_back r (some t) h result =
    let is_text = result t refl in
    rw
      (
        is_text.filled,
        string_array-ok r.evidence_ids h.evidence.0 h.evidence.1,
        positive-ok r.schema_version h.schema,
        required_text-ok 64 r.status h.status,
        positive-ok r.graph_version h.version,
        required_text-ok 64 r.plan_sha256 h.plan_sha256,
        required_text-ok 64 r.mode h.mode,
        required_text-ok 16 r.verdict h.verdict,
        required_text-ok 128 r.verifier_role h.role,
        required_text-ok 256 r.verifier_thread_id h.thread,
        required_text-ok 256 r.verifier_turn_id h.turn,
        required_text-ok 128 r.verified_at h.at,
        required_text-ok 128 t is_text,
      )
      refl

-- Reading undoes writing.
read_receipt-to_dict : (r : Receipt) → IsReadable r → read_receipt (to_dict r) ≡ ok r
read_receipt-to_dict r h = read_back r r.verification_result_id h h.result

module _ (digest : Plan → String) (plan : Plan) where
  check_receipt-IsPass :
      (r : Receipt) {o : Option Receipt}
      → check_receipt digest plan r true ≡ ok o
      → IsPass digest plan r
  unfolding check_receipt
  check_receipt-IsPass r h = record {
    schema = ground arith;
    mode = ground arith;
    passed = ground (arith, eq_iff r.status "PLAN_VERIFIED", eq_iff r.verdict "PASS");
    by_verifier = ground (arith, eq_iff r.verifier_role plan_verification_role);
    this_version = ground arith;
    this_graph = ground (arith, eq_iff r.plan_sha256 (digest plan));
    evidence = ground arith;
  }

  check_receipt_complete :
      (r : Receipt) → IsPass digest plan r → check_receipt digest plan r true ≡ ok (some r)
  unfolding check_receipt
  check_receipt_complete r p = ground (
    arith,
    eq_iff r.status "PLAN_VERIFIED",
    eq_iff r.verdict "PASS",
    eq_iff r.verifier_role plan_verification_role,
    eq_iff r.plan_sha256 (digest plan),
    p.passed.0,
    p.passed.1,
    p.evidence.0,
    p.evidence.1,
  )

  -- If a plan has a Goal Contract and the gate lets it pass, then a mapping is there and is read as
  -- a receipt, and that is a PASS by the plan verifier in a known mode, for the plan's graph
  -- version and its digest, with evidence and a recorded verification.
  pub require_plan_verified-IsPass :
      (raw : Option (Dict Json)) {u : Unit {0}}
      → plan.has_goal_contract ≡ true
      → require_plan_verified digest plan raw ≡ ok u
      → (fields : Dict Json) × (r : Receipt) × (raw ≡ some fields)
        × (read_receipt fields ≡ ok r)
        × IsPass digest plan r
  unfolding require_plan_verified validate_plan_verification_receipt check_receipt
  require_plan_verified-IsPass none has h = ground arith
  require_plan_verified-IsPass (some fields) has h =
      let (o, h₁, _) =
        >>=-eq-ok (validate_plan_verification_receipt digest plan (some fields) true) _ h in
      let (r, read, passes) = >>=-eq-ok (read_receipt fields) _ h₁ in
      (fields, r, refl, read, check_receipt-IsPass r passes)

  -- If a receipt's texts are trimmed, filled and within the reader's limits, its evidence ids are
  -- distinct and its numbers positive, and it is a PASS by the plan verifier in a known mode, for
  -- the plan's graph version and its digest, with evidence and a recorded verification, then what
  -- to_dict writes is read back as that receipt and passes the gate.
  pub require_plan_verified-to_dict :
      (r : Receipt)
      → IsReadable r
      → IsPass digest plan r
      → (read_receipt (to_dict r) ≡ ok r)
        × (require_plan_verified digest plan (some (to_dict r)) ≡ ok tt)
  unfolding require_plan_verified validate_plan_verification_receipt
  require_plan_verified-to_dict r readable passes =
      let read = read_receipt-to_dict r readable in
      (read, rw (read, check_receipt_complete r passes) refl)
