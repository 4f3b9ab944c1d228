-- ===== src/TaskState/Migrate/Verified.antt =====
-- A migrated run has verified what the old one completed (migrate_v08_task_states of
-- src/codex_autopilot/task_state.py).
use codex_autopilot.Prelude.{
  String, ◌≡◌, refl, sym, ap, ◌∙◌, subst, inl, inr, Bool, true, false, ◌||◌, List, [], ◌∷◌, arith,
  eq_iff, ◌==◌, if◌then◌else◌, ==_refl, Bool-cases, All, elem, Dict, lookup, insert, keys, get_or,
  lookup-insert, elem-keys-insert, ok, >>=-eq-ok, ok-injective, All-of_elem,
}
use codex_autopilot.Plan.{Task, Plan, ids}
use codex_autopilot.TaskState.{waiting, ready, verified, value, dependencies_eligible}
use codex_autopilot.TaskState.Validity.{IsValid, validate_task_states_sound}
use codex_autopilot.TaskState.Migrate.{
  LegacyState, completed_ids, all_waiting, mark_verified, current_state, running_phases, current_id,
  is_held, place_cursor, open_legacy, migrate_v08_task_states,
}

abbrev pub is_verified : Dict String → String → Bool
is_verified states k = is_held verified states k

insert-is_verified :
    (k j : String) (v : String) (m : Dict String)
    → is_verified (insert k v m) j ≡ (if k == j then v == value verified else is_verified m j)
insert-is_verified k j v m = elim (Bool-cases (k == j)) [
  | inl same ↦ rw (lookup-insert, same) refl
  | inr other ↦ rw (lookup-insert, other) refl
]

waiting-is_verified :
    (ts : List Task) (states : Dict String) (k : String)
    → is_verified states k ≡ false
    → is_verified (all_waiting ts states) k ≡ false
unfolding all_waiting value
waiting-is_verified [] states k h = h
waiting-is_verified (t ∷ ts) states k h =
    waiting-is_verified ts (insert t.id (value waiting) states) k (
      insert-is_verified t.id k (value waiting) states
      ∙ elim (Bool-cases (t.id == k)) [ inl same ↦ rw same refl | inr other ↦ rw other h ])

waiting-keys :
    (ts : List Task) (states : Dict String) (k : String)
    → elem k (keys (all_waiting ts states)) ≡ (elem k (ids ts) || elem k (keys states))
unfolding all_waiting
waiting-keys [] states k = refl
waiting-keys (t ∷ ts) states k =
    waiting-keys ts (insert t.id (value waiting) states) k
    ∙ ground (arith, elem-keys-insert t.id k (value waiting) states)

-- A completed task that is there becomes verified, and no other.
mark_verified_lem :
    (ks : List String) (states : Dict String) (k : String)
    → elem k (keys states) ≡ true
    → is_verified (mark_verified ks states) k ≡ (elem k ks || is_verified states k)
unfolding mark_verified
mark_verified_lem [] states k h = refl
mark_verified_lem (j ∷ ks) states k h = elim (Bool-cases (elem j (keys states))) [
  | inl there ↦
      let marked = insert j (value verified) states in
      let k_there : elem k (keys marked) ≡ true =
        ground (arith, elem-keys-insert j k (value verified) states) in
      rw there (
        mark_verified_lem ks marked k k_there
        ∙ ground (arith, insert-is_verified j k (value verified) states, ==_refl (value verified)))
  | inr absent ↦
      let differs : (j == k) ≡ false = elim (Bool-cases (j == k)) [
        | inl same ↦ absurd (cc ((eq_iff j k).0 same, absent, h))
        | inr other ↦ other
      ] in
      rw (absent, differs) (mark_verified_lem ks states k h)
]

current_state-ne_verified :
    (legacy : LegacyState) → (value (current_state legacy) == value verified) ≡ false
unfolding value
current_state-ne_verified legacy = elim (Bool-cases (legacy.phase == "WAITING_RATE_LIMIT")) [
  | inl limited ↦ rw limited refl
  | inr unlimited ↦ elim (Bool-cases (legacy.status == "BLOCKED")) [
    | inl stopped ↦ rw (unlimited, stopped) refl
    | inr going ↦ elim (Bool-cases (elem legacy.phase running_phases)) [
      | inl runs ↦ rw (unlimited, going, runs) refl
      | inr rests ↦ rw (unlimited, going, rests) refl
    ]
  ]
]

-- Neither the cursor nor the last loop verifies a task or takes it back.
place_cursor_keeps :
    (legacy : LegacyState) (ts : List Task) (states : Dict String) {placed : Dict String}
    (k : String)
    → place_cursor legacy ts states ≡ ok placed
    → is_verified placed k ≡ is_verified states k
unfolding place_cursor
place_cursor_keeps legacy ts states {placed} k h = elim (Bool-cases (legacy.status == "DONE")) [
  | inl done ↦
      let same : states ≡ placed = ok-injective (rw done at h) in
      ap (λ (m : Dict String). is_verified m k) (sym same)
  | inr undone ↦
      let (j, _, h₁) = >>=-eq-ok (current_id legacy ts states) _ (rw undone at h) in
      elim (Bool-cases (is_verified states j)) [
        | inl settled ↦
            let same : states ≡ placed = ok-injective (rw settled at h₁) in
            ap (λ (m : Dict String). is_verified m k) (sym same)
        | inr unsettled ↦
            let same : insert j (value (current_state legacy)) states ≡ placed =
              ok-injective (rw unsettled at h₁) in
            ap (λ (m : Dict String). is_verified m k) (sym same)
            ∙ insert-is_verified j k (value (current_state legacy)) states
            ∙ elim (Bool-cases (j == k)) [
              | inl here ↦
                  let at_k : is_verified states k ≡ false =
                    subst (λ i. is_verified states i ≡ false) ((eq_iff j k).0 here) unsettled in
                  rw here (current_state-ne_verified legacy ∙ sym at_k)
              | inr there ↦ rw there refl
            ]
      ]
]

waiting_is_not_verified :
    (states : Dict String) (k : String)
    → is_held waiting states k ≡ true
    → is_verified states k ≡ false
unfolding value
waiting_is_not_verified states k h =
    rw ((eq_iff (get_or "" (lookup k states)) (value waiting)).0 h) refl

ready_step :
    (states : Dict String) (j k : String)
    → is_held waiting states j ≡ true
    → (if j == k then value ready == value verified else is_verified states k)
      ≡ is_verified states k
unfolding value
ready_step states j k waits = elim (Bool-cases (j == k)) [
  | inl same ↦
      let at_k : is_verified states k ≡ false =
        subst (λ i. is_verified states i ≡ false) ((eq_iff j k).0 same)
          (waiting_is_not_verified states j waits) in
      rw same (sym at_k)
  | inr other ↦ rw other refl
]

open_legacy_keeps :
    (plan : Plan) (ts : List Task) (states : Dict String) {opened : Dict String} (k : String)
    → open_legacy plan ts states ≡ ok opened
    → is_verified opened k ≡ is_verified states k
unfolding open_legacy
open_legacy_keeps plan [] states {opened} k h =
    let same : states ≡ opened = ok-injective h in
    ap (λ (m : Dict String). is_verified m k) (sym same)
open_legacy_keeps plan (t ∷ ts) states {opened} k h =
    elim (Bool-cases (is_held waiting states t.id)) [
      | inr other ↦ open_legacy_keeps plan ts states k (rw (other, open_legacy) at h)
      | inl waits ↦
          let (eligible, _, h₁) =
            >>=-eq-ok (dependencies_eligible plan t.id states) _ (rw (waits, open_legacy) at h) in
          let now = insert t.id (value ready) states in
          let step : is_verified now k ≡ is_verified states k =
            insert-is_verified t.id k (value ready) states ∙ ready_step states t.id k waits in
          elim (Bool-cases eligible) [
            | inr not_yet ↦ open_legacy_keeps plan ts states k (rw not_yet at h₁)
            | inl may ↦ elim (Bool-cases plan.legacy_serial) [
              | inl serial ↦
                  let same : now ≡ opened = ok-injective (rw (may, serial) at h₁) in
                  ap (λ (m : Dict String). is_verified m k) (sym same) ∙ step
              | inr graph ↦ open_legacy_keeps plan ts now k (rw (may, graph) at h₁) ∙ step
            ]
          ]
    ]

nothing_verified : (k : String) → is_verified [] k ≡ false
unfolding lookup value
nothing_verified k = refl

-- If a v0.8 run is migrated, the map is valid, and a task of the plan is VERIFIED in it exactly if
-- the old run had completed it: by its history, by the cursor, or by being done.
pub migrate_v08_task_states-verified :
    (plan : Plan) (legacy : LegacyState) {states : Dict String}
    → migrate_v08_task_states plan legacy ≡ ok states
    → IsValid plan states
      × All (λ k. is_verified states k ≡ elem k (completed_ids legacy plan.tasks)) (ids plan.tasks)
unfolding migrate_v08_task_states
migrate_v08_task_states-verified plan legacy {states} h =
    let done = completed_ids legacy plan.tasks in
    let start = all_waiting plan.tasks [] in
    let (placed, at_cursor, h₁) =
      >>=-eq-ok (place_cursor legacy plan.tasks (mark_verified done start)) _ h in
    let (opened, ready_ones, h₂) = >>=-eq-ok (open_legacy plan plan.tasks placed) _ h₁ in
    let (valid, same) = validate_task_states_sound plan opened h₂ in
    (
      subst (IsValid plan) (sym same) valid,
      All-of_elem (λ k. is_verified states k ≡ elem k done) (ids plan.tasks)
          (λ k k_known.
            let there : elem k (keys start) ≡ true =
              waiting-keys plan.tasks [] k ∙ rw k_known refl in
            let none_yet = waiting-is_verified plan.tasks [] k (nothing_verified k) in
            let marked : is_verified (mark_verified done start) k ≡ elem k done =
              mark_verified_lem done start k there ∙ ground (arith, none_yet) in
            ap (λ (m : Dict String). is_verified m k) same
            ∙ open_legacy_keeps plan plan.tasks placed k ready_ones
            ∙ place_cursor_keeps legacy plan.tasks (mark_verified done start) k at_cursor
            ∙ marked),
    )
