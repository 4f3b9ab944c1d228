-- ===== src/Resources/Journal/Removal.antt =====
-- The comparison of the replayed map with the held locks, when both lose one entry
-- (src/codex_autopilot/resources.py).
use codex_autopilot.Prelude.{
  String, ◌≡◌, refl, ap, subst, inl, inr, true, false, not, ◌&&◌, some, List, [], ◌∷◌, arith,
  eq_iff, leb, ◌==◌, Bool-cases, Option-cases, All, elem, IsDistinct, Dict, lookup, insert, keys,
  is_some, elem-keys-insert, ok, or_raise, >>=-eq-ok, ensure-bind-eq-ok, ok-injective, delete,
}
use codex_autopilot.Resources.{LockEvent}
use codex_autopilot.Resources.Journal.{
  distinct, Held, same_held, is_included, Replay, held_by_event, replay_acquired, replay_released,
  replay_event, replay, lock_events,
}

-- The keys of a replayed map stand once each.
insert-IsDistinct :
    (k : String) (v : Held) (m : Dict Held) → IsDistinct (keys m) → IsDistinct (keys (insert k v m))
unfolding insert
insert-IsDistinct k v [] h = (refl, tt)
insert-IsDistinct k v ((j, w) ∷ m) h = elim (Bool-cases (j == k)) [
  | inl same ↦ rw same (subst (λ i. elem i (keys m) ≡ false) ((eq_iff j k).0 same) h.0, h.1)
  | inr other ↦ rw other (
    ground (arith, elem-keys-insert k j v m, h.0, eq_iff k j, eq_iff j k),
    insert-IsDistinct k v m h.1,
  )
]

delete-absent :
    (k j : String) (m : Dict Held) → elem j (keys m) ≡ false → elem j (keys (delete k m)) ≡ false
unfolding delete
delete-absent k j [] h = refl
delete-absent k j ((i, w) ∷ m) h = elim (Bool-cases (i == k)) [
  | inl same ↦ rw same (ground arith)
  | inr other ↦ rw other (ground (arith, delete-absent k j m))
]

delete-IsDistinct :
    (k : String) (m : Dict Held) → IsDistinct (keys m) → IsDistinct (keys (delete k m))
unfolding delete
delete-IsDistinct k [] h = tt
delete-IsDistinct k ((j, w) ∷ m) h = elim (Bool-cases (j == k)) [
  | inl same ↦ rw same h.1
  | inr other ↦ rw other (delete-absent k j m h.0, delete-IsDistinct k m h.1)
]

event-IsDistinct :
    (r : Replay) (e : LockEvent) {next : Replay}
    → IsDistinct (keys r.replayed)
    → replay_event r e ≡ ok next
    → IsDistinct (keys next.replayed)
unfolding replay_event replay_acquired replay_released
event-IsDistinct r e {next} h run =
    let (_, h₁) = ensure-bind-eq-ok (leb 1 e.sequence) _ _ run in
    let (_, h₂) = ensure-bind-eq-ok (elem e.event lock_events) _ _ h₁ in
    let (_, h₃) = ensure-bind-eq-ok (distinct e.claim_ids) _ _ h₂ in
    elim (Bool-cases (e.event == "acquired")) [
      | inl acquires ↦
          let (_, a₁) =
            ensure-bind-eq-ok (not (elem e.lock_id r.acquired_lock_ids)) _ _ (rw acquires at h₃) in
          let (_, a₂) =
            ensure-bind-eq-ok (not (elem e.ownership_token r.acquired_owner_tokens)) _ _ a₁ in
          let (_, a₃) = ensure-bind-eq-ok (not (is_some e.reason)) _ _ a₂ in
          let same : insert e.lock_id (held_by_event e) r.replayed ≡ next.replayed =
            ap (λ (n : Replay). n.replayed) (ok-injective a₃) in
          subst (λ m. IsDistinct (keys m)) same
            (insert-IsDistinct e.lock_id (held_by_event e) r.replayed h)
      | inr releases ↦
          let (_, r₁) = ensure-bind-eq-ok (is_some e.reason) _ _ (rw releases at h₃) in
          let (active, _, r₂) = >>=-eq-ok (or_raise (lookup e.lock_id r.replayed) _) _ r₁ in
          let (_, r₃) = ensure-bind-eq-ok (same_held active (held_by_event e)) _ _ r₂ in
          let same : delete e.lock_id r.replayed ≡ next.replayed =
            ap (λ (n : Replay). n.replayed) (ok-injective r₃) in
          subst (λ m. IsDistinct (keys m)) same (delete-IsDistinct e.lock_id r.replayed h)
    ]

pub replay-IsDistinct :
    (r : Replay) (es : List LockEvent) {end : Replay}
    → IsDistinct (keys r.replayed)
    → replay r es ≡ ok end
    → IsDistinct (keys end.replayed)
unfolding replay
replay-IsDistinct r [] h run =
    subst (λ (n : Replay). IsDistinct (keys n.replayed)) (ok-injective run) h
replay-IsDistinct r (e ∷ es) h run =
    let (next, first, rest) = >>=-eq-ok (replay_event r e) _ run in
    replay-IsDistinct next es (event-IsDistinct r e h first) rest

-- An entry that stands in a map, up to the order of its fields' texts.
abbrev pub StandsIn : Dict Held → String × Held → Type 0
StandsIn b entry = (w : Held) × (lookup entry.0 b ≡ some w) × (same_held entry.1 w ≡ true)

pub is_included_sound : (a b : Dict Held) → is_included a b ≡ true → All (StandsIn b) a
unfolding is_included
is_included_sound [] b h = tt
is_included_sound ((k, v) ∷ a) b h = elim (Option-cases (lookup k b)) [
  | inl absent ↦ absurd (cc (rw (is_included, absent) at h))
  | inr found ↦
      let both : (same_held v found.0 && is_included a b) ≡ true = rw (is_included, found.1) at h in
      ((found.0, found.1, ground arith), is_included_sound a b (ground arith))
]

pub is_included_complete : (a b : Dict Held) → All (StandsIn b) a → is_included a b ≡ true
unfolding is_included
is_included_complete [] b h = refl
is_included_complete ((k, v) ∷ a) b ((w, found, same), rest) =
    rw (is_included, found) (ground (arith, same, is_included_complete a b rest))

pub lookup-delete_ne :
    (k j : String) (m : Dict Held) → (k == j) ≡ false → lookup j (delete k m) ≡ lookup j m
unfolding lookup delete
lookup-delete_ne k j [] h = refl
lookup-delete_ne k j ((i, w) ∷ m) h = elim (Bool-cases (i == k)) [
  | inl same ↦
      let other : (i == j) ≡ false = ground (arith, h, eq_iff i k, eq_iff i j, eq_iff k j) in
      rw (same, other) refl
  | inr differs ↦ elim (Bool-cases (i == j)) [
    | inl here ↦ rw (differs, here) refl
    | inr there ↦ rw (differs, there) (lookup-delete_ne k j m h)
  ]
]

-- What is left after a deletion, its key no more among it.
pub All-delete :
    (P : String × Held → Type 0) (k : String) (m : Dict Held)
    → IsDistinct (keys m)
    → All P m
    → All (λ e. P e × ((k == e.0) ≡ false)) (delete k m)
unfolding delete
All-delete P k [] once h = tt
All-delete P k ((j, w) ∷ m) once h = elim (Bool-cases (j == k)) [
  | inl same ↦
      rw same (others k m (subst (λ i. elem i (keys m) ≡ false) ((eq_iff j k).0 same) once.0) h.1)
  | inr other ↦
      rw other ((h.0, ground (arith, other, eq_iff k j, eq_iff j k)), All-delete P k m once.1 h.1)
]
  where
    others :
        (k : String) (m : Dict Held)
        → elem k (keys m) ≡ false
        → All P m
        → All (λ e. P e × ((k == e.0) ≡ false)) m
    others k [] absent h = tt
    others k ((j, w) ∷ m) absent h =
        ((h.0, ground (arith, absent, eq_iff k j, eq_iff j k)), others k m (ground arith) h.1)
