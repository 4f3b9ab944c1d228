-- ===== src/Resources/Journal/Appends.antt =====
-- The replay of a journal that has one more acquisition at its end.
use codex_autopilot.Prelude.{
  ℕ, suc, ◌+◌, String, ◌≡◌, subst, inl, inr, true, false, not, none, List, [], ◌∷◌, ◌++◌, arith,
  leb, ◌==◌, ==_refl, Bool-cases, Option-cases, length, All, All-map, elem, Dict, lookup, insert,
  is_some, All-lookup, All-insert, ok, ◌>>=◌, or_raise, >>=-eq-ok, ensure-bind-eq-ok, bind-ok,
  delete,
}
use codex_autopilot.Resources.{LockEvent}
use codex_autopilot.Resources.Journal.{
  distinct, same_held, Replay, held_by_event, replay_acquired, replay_released, replay_event,
  replay, counts_from, lock_events,
}

pub replay-snoc :
    (r : Replay) (es : List LockEvent) (e : LockEvent) {end : Replay}
    → replay r es ≡ ok end
    → replay r (es ++ e ∷ []) ≡ replay_event end e
unfolding replay
replay-snoc r [] e {end} h =
    let same : r ≡ end = cc h in
    subst (λ s. (replay_event r e >>= λ next. ok next) ≡ replay_event s e) same
      (bind-ok (replay_event r e))
replay-snoc r (f ∷ fs) e h =
    let (next, first, rest) = >>=-eq-ok (replay_event r f) _ h in
    rw first (replay-snoc next fs e rest)

pub counts_from-snoc :
    (n : ℕ) (es : List LockEvent) (e : LockEvent)
    → counts_from n es ≡ true
    → e.sequence ≡ n + length es
    → counts_from n (es ++ e ∷ []) ≡ true
unfolding counts_from
counts_from-snoc n [] e h last = ground arith
counts_from-snoc n (f ∷ fs) e h last = ground (arith, counts_from-snoc (suc n) fs e)

-- An id that no event of the journal has is not acquired by it, and neither is a token.
abbrev pub IsNew : String → String → LockEvent → Type 0
IsNew id token e = ((e.lock_id == id) ≡ false) × ((e.ownership_token == token) ≡ false)

pub record IsUnknown (id token : String) (r : Replay) : Type 0 where
  pub no_id : elem id r.acquired_lock_ids ≡ false
  pub no_token : elem token r.acquired_owner_tokens ≡ false
  pub keys_acquired : All (λ entry. elem entry.0 r.acquired_lock_ids ≡ true) r.replayed

delete-All :
    {V : Type 0} (P : String × V → Type 0) (k : String) (m : Dict V) → All P m → All P (delete k m)
unfolding delete
delete-All P k [] h = tt
delete-All P k ((j, v) ∷ m) h = elim (Bool-cases (j == k)) [
  | inl same ↦ rw same h.1
  | inr other ↦ rw other (h.0, delete-All P k m h.1)
]

acquired-IsUnknown :
    (id token : String) (r : Replay) (e : LockEvent) {next : Replay}
    → IsNew id token e
    → IsUnknown id token r
    → replay_acquired r e ≡ ok next
    → IsUnknown id token next
unfolding replay_acquired
acquired-IsUnknown id token r e {next} fresh u h =
    let (_, h₁) = ensure-bind-eq-ok (not (elem e.lock_id r.acquired_lock_ids)) _ _ h in
    let (_, h₂) = ensure-bind-eq-ok (not (elem e.ownership_token r.acquired_owner_tokens)) _ _ h₁ in
    let (_, h₃) = ensure-bind-eq-ok (not (is_some e.reason)) _ _ h₂ in
    let made : Replay = record {
      acquired_lock_ids = e.lock_id ∷ r.acquired_lock_ids;
      acquired_owner_tokens = e.ownership_token ∷ r.acquired_owner_tokens;
      replayed = insert e.lock_id (held_by_event e) r.replayed;
    } in
    let same : made ≡ next = cc h₃ in
    subst (IsUnknown id token) same (record {
      no_id = ground (arith, fresh.0, u.no_id);
      no_token = ground (arith, fresh.1, u.no_token);
      keys_acquired =
          All-insert (λ entry. elem entry.0 (e.lock_id ∷ r.acquired_lock_ids) ≡ true) r.replayed
            e.lock_id (held_by_event e)
            (All-map r.replayed (λ entry known. ground arith) u.keys_acquired)
            (ground (arith, ==_refl e.lock_id));
    })

released-IsUnknown :
    (id token : String) (r : Replay) (e : LockEvent) {next : Replay}
    → IsUnknown id token r
    → replay_released r e ≡ ok next
    → IsUnknown id token next
unfolding replay_released
released-IsUnknown id token r e {next} u h =
    let (_, h₁) = ensure-bind-eq-ok (is_some e.reason) _ _ h in
    let (active, _, h₂) = >>=-eq-ok (or_raise (lookup e.lock_id r.replayed) _) _ h₁ in
    let (_, h₃) = ensure-bind-eq-ok (same_held active (held_by_event e)) _ _ h₂ in
    let made : Replay = record r { replayed = delete e.lock_id r.replayed } in
    let same : made ≡ next = cc h₃ in
    subst (IsUnknown id token) same (record {
      no_id = u.no_id;
      no_token = u.no_token;
      keys_acquired =
          delete-All (λ entry. elem entry.0 r.acquired_lock_ids ≡ true) e.lock_id r.replayed
            u.keys_acquired;
    })

event-IsUnknown :
    (id token : String) (r : Replay) (e : LockEvent) {next : Replay}
    → IsNew id token e
    → IsUnknown id token r
    → replay_event r e ≡ ok next
    → IsUnknown id token next
unfolding replay_event
event-IsUnknown id token r e fresh u h =
    let (_, h₁) = ensure-bind-eq-ok (leb 1 e.sequence) _ _ h in
    let (_, h₂) = ensure-bind-eq-ok (elem e.event lock_events) _ _ h₁ in
    let (_, h₃) = ensure-bind-eq-ok (distinct e.claim_ids) _ _ h₂ in
    elim (Bool-cases (e.event == "acquired")) [
      | inl acquires ↦ acquired-IsUnknown id token r e fresh u (rw acquires at h₃)
      | inr releases ↦ released-IsUnknown id token r e u (rw releases at h₃)
    ]

pub replay-IsUnknown :
    (id token : String) (r : Replay) (es : List LockEvent) {end : Replay}
    → All (IsNew id token) es
    → IsUnknown id token r
    → replay r es ≡ ok end
    → IsUnknown id token end
unfolding replay
replay-IsUnknown id token r [] fresh u h = subst (IsUnknown id token) (cc h) u
replay-IsUnknown id token r (e ∷ es) fresh u h =
    let (next, first, rest) = >>=-eq-ok (replay_event r e) _ h in
    replay-IsUnknown id token next es fresh.1 (event-IsUnknown id token r e fresh.0 u first) rest

-- An unknown id stands in no entry that is held.
pub unknown-lookup :
    (id token : String) (r : Replay) → IsUnknown id token r → lookup id r.replayed ≡ none
unknown-lookup id token r u = elim (Option-cases (lookup id r.replayed)) [
  | inl absent ↦ absent
  | inr found ↦
      let known : elem id r.acquired_lock_ids ≡ true =
        All-lookup (λ entry. elem entry.0 r.acquired_lock_ids ≡ true) r.replayed id found.0
          u.keys_acquired found.1 in
      absurd (cc (known, u.no_id))
]
