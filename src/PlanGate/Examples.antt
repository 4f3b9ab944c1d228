-- ===== src/PlanGate/Examples.antt =====
-- The plan gate at a receipt of a PASS.
use codex_autopilot.Prelude.{
  arith, ap, subst, get_or, ◌≡◌, refl, true, some, err, [], ◌∷◌, ok, lookup, Dict,
  plan_not_verified,
}
use codex_autopilot.Plan.{Plan}
use codex_autopilot.Resources.Normalize.{strip, lstrip, rstrip}
use codex_autopilot.Samples.{plan, digest}
use codex_autopilot.PlanGate.{
  Json, text, Receipt, to_dict, required_text, positive, all_distinct, string_array, optional_text,
  read_receipt, check_receipt, validate_plan_verification_receipt, require_plan_verified,
}
use codex_autopilot.PlanGate.Admits.{
  IsPass, IsReadable, IsText, require_plan_verified-IsPass, require_plan_verified-to_dict,
}

program : Unit {0}
unfolding lookup strip lstrip rstrip to_dict required_text positive all_distinct string_array
    optional_text read_receipt check_receipt validate_plan_verification_receipt
    require_plan_verified
program = tt

abbrev contracted : Plan
contracted = record plan { has_goal_contract = true }

abbrev receipt : Receipt
receipt = record {
  schema_version = 1;
  status = "PLAN_VERIFIED";
  graph_version = 1;
  plan_sha256 = "digest";
  mode = "INITIAL_PLAN_VERIFICATION";
  verdict = "PASS";
  verifier_role = "Plan Verification Architect";
  verifier_thread_id = "thread-1";
  verifier_turn_id = "turn-1";
  verified_at = "2026-09-25T10:00:00Z";
  evidence_ids = "e-1" ∷ [];
  verification_result_id = some "v-1";
}

abbrev written : Dict Json
written = to_dict receipt

read_written : read_receipt written ≡ ok receipt
unfolding program
read_written = refl

admitted : require_plan_verified digest contracted (some written) ≡ ok tt
unfolding program
admitted = refl

-- A field that no receipt has, and a thread that is blank.
unknown_field :
    require_plan_verified digest contracted (some (("note", text "x") ∷ written))
    ≡ err plan_not_verified
unfolding program
unknown_field = refl

blank_thread :
    require_plan_verified digest contracted
      (some (to_dict (record receipt { verifier_thread_id = "  " })))
    ≡ err plan_not_verified
unfolding program
blank_thread = refl

is_thread : IsText 256 "thread-1"
unfolding program
is_thread = record { trimmed = refl; filled = refl; short = refl }

readable : IsReadable receipt
unfolding program
readable = record {
  schema = omega arith;
  version = omega arith;
  status = record { trimmed = refl; filled = refl; short = refl };
  plan_sha256 = record { trimmed = refl; filled = refl; short = refl };
  mode = record { trimmed = refl; filled = refl; short = refl };
  verdict = record { trimmed = refl; filled = refl; short = refl };
  role = record { trimmed = refl; filled = refl; short = refl };
  thread = is_thread;
  turn = record { trimmed = refl; filled = refl; short = refl };
  at = record { trimmed = refl; filled = refl; short = refl };
  evidence = (((refl, refl), tt), refl);
  result = λ t e.
      subst (IsText 128) (ap (get_or "") e)
        (record { trimmed = refl; filled = refl; short = refl });
}

require_plan_verified-IsPass_example :
    (fields : Dict Json) × (r : Receipt) × (some written ≡ some fields)
    × (read_receipt fields ≡ ok r)
    × IsPass digest contracted r
require_plan_verified-IsPass_example =
    require_plan_verified-IsPass digest contracted (some written) refl admitted

require_plan_verified-to_dict_example :
    (read_receipt written ≡ ok receipt)
    × (require_plan_verified digest contracted (some written) ≡ ok tt)
require_plan_verified-to_dict_example =
    require_plan_verified-to_dict digest contracted receipt readable (record {
      schema = refl;
      mode = refl;
      passed = (refl, refl);
      by_verifier = refl;
      this_version = refl;
      this_graph = refl;
      evidence = (refl, refl);
    })
