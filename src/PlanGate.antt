-- ===== src/PlanGate.antt =====
-- The gate before production (src/codex_autopilot/plan_verification.py): a receipt of an independent
-- PASS, bound to the exact graph by its digest. The digest is SHA-256 of canonical JSON, a library's
-- function, so it is a parameter. A receipt is read from the mapping that the run state holds.
pub mod Admits
mod Examples
use Prim.Native.String as Text
use codex_autopilot.Prelude.{
  ℕ, String, Bool, true, false, not, ◌&&◌, ◌||◌, Option, none, some, List, [], ◌∷◌, Result, ok, err,
  ◌>>=◌, ◌>>◌, ensure, is_empty, elem, is_some, nat_eq, ◌==◌, if◌then◌else◌, plan_not_verified,
  Dict, keys, lookup, all, map, leb, ltb, plan_graph_mismatch, plan_digest_mismatch,
  evidence_missing,
}
use codex_autopilot.Plan.{Plan}
use codex_autopilot.Resources.Normalize.{strip}

-- A value of the mapping that the run state holds; `other` stands for every value that no field of a
-- receipt takes: a flag, a fraction, a negative number, an object, a list with an entry that is no
-- text.
pub data Json : Type 0 where
  null : Json
  number : ℕ → Json
  text : String → Json
  texts : List String → Json
  other : Json

pub record Receipt : Type 0 where
  pub schema_version : ℕ
  pub status : String
  pub graph_version : ℕ
  pub plan_sha256 : String
  pub mode : String
  pub verdict : String
  pub verifier_role : String
  pub verifier_thread_id : String
  pub verifier_turn_id : String
  pub verified_at : String
  pub evidence_ids : List String
  pub verification_result_id : Option String

abbrev pub plan_verification_role : String
plan_verification_role = "Plan Verification Architect"

abbrev pub modes : List String
modes = "INITIAL_PLAN_VERIFICATION" ∷ "PLAN_PATCH_VERIFICATION" ∷ "FULL_PLAN_REVALIDATION" ∷ []

abbrev pub is_filled : Option String → Bool
is_filled none = false
is_filled (some t) = not (t == "")

-- PlanVerificationReceipt.to_dict
unfoldable pub to_dict : Receipt → Dict Json
to_dict r =
    ("schema_version", number r.schema_version)
    ∷ ("status", text r.status)
    ∷ ("graph_version", number r.graph_version)
    ∷ ("plan_sha256", text r.plan_sha256)
    ∷ ("mode", text r.mode)
    ∷ ("verdict", text r.verdict)
    ∷ ("verifier_role", text r.verifier_role)
    ∷ ("verifier_thread_id", text r.verifier_thread_id)
    ∷ ("verifier_turn_id", text r.verifier_turn_id)
    ∷ ("verified_at", text r.verified_at)
    ∷ ("evidence_ids", texts r.evidence_ids)
    ∷ elim r.verification_result_id [
      | none ↦ []
      | some t ↦ if t == "" then [] else ("verification_result_id", text t) ∷ []
    ]

abbrev pub receipt_fields : List String
receipt_fields =
    "schema_version" ∷ "status" ∷ "graph_version" ∷ "plan_sha256" ∷ "mode" ∷ "verdict"
    ∷ "verifier_role" ∷ "verifier_thread_id" ∷ "verifier_turn_id" ∷ "verified_at" ∷ "evidence_ids"
    ∷ "verification_result_id" ∷ []

unfoldable pub required_text : ℕ → Option Json → Result String
required_text maximum (some (text t)) = do
  let result = strip t
  ensure (not (result == "")) plan_not_verified
  ensure (leb (Text.len result) maximum) plan_not_verified
  ok result
required_text maximum value = err plan_not_verified

unfoldable pub positive : Option Json → Result ℕ
positive (some (number n)) = ensure (ltb 0 n) plan_not_verified >> ok n
positive value = err plan_not_verified

unfoldable pub all_distinct : List String → Bool
all_distinct [] = true
all_distinct (x ∷ xs) = not (elem x xs) && all_distinct xs

unfoldable pub string_array : Option Json → Result (List String)
string_array none = ok []
string_array (some (texts items)) = do
  ensure (all (λ t. not (strip t == "")) items) plan_not_verified
  ensure (all_distinct (map strip items)) plan_not_verified
  ok (map strip items)
string_array value = err plan_not_verified

unfoldable pub optional_text : ℕ → Option Json → Result (Option String)
optional_text maximum none = ok none
optional_text maximum (some null) = ok none
optional_text maximum value = do t ← required_text maximum value; ok (some t)

-- The reading of a mapping in validate_plan_verification_receipt.
unfoldable pub read_receipt : Dict Json → Result Receipt
read_receipt raw = do
  ensure (all (λ k. elem k receipt_fields) (keys raw)) plan_not_verified
  evidence_ids ← string_array (lookup "evidence_ids" raw)
  schema_version ← positive (lookup "schema_version" raw)
  status ← required_text 64 (lookup "status" raw)
  graph_version ← positive (lookup "graph_version" raw)
  plan_sha256 ← required_text 64 (lookup "plan_sha256" raw)
  mode ← required_text 64 (lookup "mode" raw)
  verdict ← required_text 16 (lookup "verdict" raw)
  verifier_role ← required_text 128 (lookup "verifier_role" raw)
  verifier_thread_id ← required_text 256 (lookup "verifier_thread_id" raw)
  verifier_turn_id ← required_text 256 (lookup "verifier_turn_id" raw)
  verified_at ← required_text 128 (lookup "verified_at" raw)
  verification_result_id ← optional_text 128 (lookup "verification_result_id" raw)
  ok (record {
    schema_version = schema_version;
    status = status;
    graph_version = graph_version;
    plan_sha256 = plan_sha256;
    mode = mode;
    verdict = verdict;
    verifier_role = verifier_role;
    verifier_thread_id = verifier_thread_id;
    verifier_turn_id = verifier_turn_id;
    verified_at = verified_at;
    evidence_ids = evidence_ids;
    verification_result_id = verification_result_id;
  })

module _ (digest : Plan → String) where
  -- The checks on a receipt, in the source's order.
  check_receipt : Plan → Receipt → Bool → Result (Option Receipt)
  check_receipt plan r require_evidence = do
    ensure (nat_eq r.schema_version 1) plan_not_verified
    ensure (r.status == "PLAN_VERIFIED" && r.verdict == "PASS") plan_not_verified
    ensure (elem r.mode modes) plan_not_verified
    ensure (r.verifier_role == plan_verification_role) plan_not_verified
    ensure (nat_eq r.graph_version plan.graph_version) plan_graph_mismatch
    ensure (r.plan_sha256 == digest plan) plan_digest_mismatch
    ensure
        (not (
          require_evidence
          && (is_empty r.evidence_ids || not (is_filled r.verification_result_id))))
        evidence_missing
    ok (some r)

  unfoldable pub validate_plan_verification_receipt :
      Plan → Option (Dict Json) → Bool → Result (Option Receipt)
  unfolding check_receipt
  validate_plan_verification_receipt plan none require_evidence =
      if plan.has_goal_contract then err plan_not_verified else ok none
  validate_plan_verification_receipt plan (some raw) require_evidence = do
    r ← read_receipt raw
    check_receipt plan r require_evidence

  unfoldable pub require_plan_verified : Plan → Option (Dict Json) → Result (Unit {0})
  unfolding validate_plan_verification_receipt
  require_plan_verified plan raw = do
    receipt ← validate_plan_verification_receipt plan raw true
    ok tt
