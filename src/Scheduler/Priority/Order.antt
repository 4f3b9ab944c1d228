-- ===== src/Scheduler/Priority/Order.antt =====
-- The priority order is a strict order on scores, so sorting by it is determined by it.
use mathlib.Core.List.{Perm}
use codex_autopilot.Prelude.{
  ◌≡◌, true, false, List, All, IsSorted, sort_by-perm, sort_by-IsSorted, All-sort_by,
  then_less_asym, then_less_trans, then_less_trans_down, text_less_asym, text_less_trans,
}
use codex_autopilot.Scheduler.Priority.{PriorityScore, comes_before, ordered, tier}

comes_before_asym : (a b : PriorityScore) → comes_before a b ≡ true → comes_before b a ≡ false
unfolding comes_before
comes_before_asym a b = then_less_asym (tier a) (tier b) _ _ (
    then_less_asym b.explicit_priority a.explicit_priority _ _ (
      then_less_asym b.critical_path_length a.critical_path_length _ _ (
        then_less_asym b.transitive_fan_out a.transitive_fan_out _ _ (
          then_less_asym a.ready_sequence b.ready_sequence _ _ (
            then_less_asym a.declaration_index b.declaration_index _ _
              (text_less_asym a.task_id b.task_id))))))

comes_before_trans :
    (a b c : PriorityScore)
    → comes_before b a ≡ false
    → comes_before c b ≡ false
    → comes_before c a ≡ false
unfolding comes_before
comes_before_trans a b c = then_less_trans (tier a) (tier b) (tier c) _ _ _ (
    then_less_trans_down a.explicit_priority b.explicit_priority c.explicit_priority _ _ _ (
      then_less_trans_down a.critical_path_length b.critical_path_length c.critical_path_length _ _
        _
        (then_less_trans_down a.transitive_fan_out b.transitive_fan_out c.transitive_fan_out _ _ _ (
          then_less_trans a.ready_sequence b.ready_sequence c.ready_sequence _ _ _ (
            then_less_trans a.declaration_index b.declaration_index c.declaration_index _ _ _
              (text_less_trans a.task_id b.task_id c.task_id))))))

-- The scores come out in the order of `_priority_key`, each as often as it was given.
pub ordered-IsSorted :
    (scores : List PriorityScore)
    → IsSorted comes_before (ordered scores) × Perm (ordered scores) scores
unfolding ordered
ordered-IsSorted scores = (
  sort_by-IsSorted comes_before comes_before_asym comes_before_trans scores,
  sort_by-perm comes_before scores,
)

pub All-ordered :
    (P : PriorityScore → Type 0) (scores : List PriorityScore)
    → All P scores
    → All P (ordered scores)
unfolding ordered
All-ordered P scores h = All-sort_by comes_before P scores h
