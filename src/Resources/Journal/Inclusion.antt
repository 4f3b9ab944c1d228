-- ===== src/Resources/Journal/Inclusion.antt =====
-- The comparison of the replayed map with the held locks, when both gain one entry.
use codex_autopilot.Prelude.{
  ℕ, String, ◌≡◌, refl, sym, ap, ◌∙◌, inl, inr, true, false, ◌&&◌, Option, none, some, List, [],
  ◌∷◌, ◌++◌, arith, eq_iff, nat_eq, ◌==◌, ==_refl, Bool-cases, Option-cases, elem, Dict, lookup,
  insert, is_some, same_texts,
}
use codex_autopilot.Resources.{DurableResourceLock}
use codex_autopilot.Resources.Journal.{
  lock_ids, Held, same_held, is_included, same_map, held_by_lock, held_map,
}

same_slot_refl : (o : Option ℕ) → (elim o [ none ↦ true | some n ↦ nat_eq n n ]) ≡ true
same_slot_refl none = refl
same_slot_refl (some n) = ground arith

pub same_texts_refl : (xs : List String) → same_texts xs xs ≡ true
same_texts_refl [] = refl
same_texts_refl (x ∷ xs) = ground (arith, same_texts_refl xs, ==_refl x)

same_held_refl : (h : Held) → same_held h h ≡ true
unfolding same_held
same_held_refl h = elim (Option-cases h.computer_use_slot) [
  | inl free ↦
      rw (free, ==_refl h.ownership_token, ==_refl h.task_id, same_texts_refl h.claim_ids) refl
  | inr taken ↦
      rw (taken.1, ==_refl h.ownership_token, ==_refl h.task_id, same_texts_refl h.claim_ids)
        (ground arith)
]

insert_new :
    {V : Type 0} (k : String) (v : V) (m : Dict V)
    → lookup k m ≡ none
    → insert k v m ≡ m ++ (k, v) ∷ []
unfolding insert lookup
insert_new k v [] h = refl
insert_new k v ((j, w) ∷ m) h = elim (Bool-cases (j == k)) [
  | inl same ↦ absurd (cc (rw same at h))
  | inr other ↦ rw (other, insert_new k v m (rw other at h)) refl
]

lookup-append_found :
    {V : Type 0} (k : String) (m n : Dict V) {v : V}
    → lookup k m ≡ some v
    → lookup k (m ++ n) ≡ some v
unfolding lookup
lookup-append_found k [] n h = absurd (cc h)
lookup-append_found k ((j, w) ∷ m) n h = elim (Bool-cases (j == k)) [
  | inl same ↦ rw same (rw same at h)
  | inr other ↦ rw other (lookup-append_found k m n (rw other at h))
]

lookup-append_absent :
    {V : Type 0} (k : String) (m : Dict V) (v : V)
    → lookup k m ≡ none
    → lookup k (m ++ (k, v) ∷ []) ≡ some v
unfolding lookup
lookup-append_absent k [] v h = rw (==_refl k) refl
lookup-append_absent k ((j, w) ∷ m) v h = elim (Bool-cases (j == k)) [
  | inl same ↦ absurd (cc (rw same at h))
  | inr other ↦ rw other (lookup-append_absent k m v (rw other at h))
]

included-snoc :
    (a b : Dict Held) (k : String) (h : Held)
    → lookup k b ≡ none
    → is_included a b ≡ true
    → is_included (a ++ (k, h) ∷ []) (b ++ (k, h) ∷ []) ≡ true
unfolding is_included
included-snoc [] b k h absent inc =
    rw (is_included, lookup-append_absent k b h absent, same_held_refl h) refl
included-snoc ((j, v) ∷ a) b k h absent inc = elim (Option-cases (lookup j b)) [
  | inl none_there ↦ absurd (cc (rw (is_included, none_there) at inc))
  | inr found ↦
      let both : (same_held v found.0 && is_included a b) ≡ true =
        rw (is_included, found.1) at inc in
      rw (is_included, lookup-append_found j b ((k, h) ∷ []) found.1)
        (ground (arith, both, included-snoc a b k h absent))
]

pub held_map-snoc :
    (ls : List DurableResourceLock) (l : DurableResourceLock)
    → held_map (ls ++ l ∷ []) ≡ held_map ls ++ (l.lock_id, held_by_lock l) ∷ []
unfolding held_map
held_map-snoc [] l = refl
held_map-snoc (k ∷ ls) l = rw (held_map-snoc ls l) refl

lookup-held_map :
    (k : String) (ls : List DurableResourceLock)
    → is_some (lookup k (held_map ls)) ≡ elem k (lock_ids ls)
unfolding held_map lookup
lookup-held_map k [] = refl
lookup-held_map k (l ∷ ls) = ground (arith, lookup-held_map k ls)

included-lookup :
    (a b : Dict Held) (k : String) → is_included a b ≡ true → lookup k b ≡ none → lookup k a ≡ none
unfolding is_included lookup
included-lookup [] b k inc absent = refl
included-lookup ((j, v) ∷ a) b k inc absent = elim (Option-cases (lookup j b)) [
  | inl none_there ↦ absurd (cc (rw (is_included, none_there) at inc))
  | inr found ↦
      let both : (same_held v found.0 && is_included a b) ≡ true =
        rw (is_included, found.1) at inc in
      elim (Bool-cases (j == k)) [
        | inl same ↦ absurd (cc (found.1, absent, ap (λ i. lookup i b) ((eq_iff j k).0 same)))
        | inr other ↦ rw other (included-lookup a b k (ground (arith, both)) absent)
      ]
]

-- A lock with a new id joins the held ones and the replayed map alike.
pub record Joins (replayed : Dict Held) (ls : List DurableResourceLock) (l : DurableResourceLock)
    : Type 0 where
  pub id_free : elem l.lock_id (lock_ids ls) ≡ false
  pub agrees :
      same_map (insert l.lock_id (held_by_lock l) replayed) (held_map (ls ++ l ∷ [])) ≡ true

pub join_lem :
    (replayed : Dict Held) (ls : List DurableResourceLock) (l : DurableResourceLock)
    → lookup l.lock_id replayed ≡ none
    → same_map replayed (held_map ls) ≡ true
    → Joins replayed ls l
unfolding same_map
join_lem replayed ls l absent agree =
    let there : is_included replayed (held_map ls) ≡ true = ground (arith, agree) in
    let back : is_included (held_map ls) replayed ≡ true = ground (arith, agree) in
    let held_absent = included-lookup (held_map ls) replayed l.lock_id back absent in
    record {
      id_free = sym (lookup-held_map l.lock_id ls) ∙ ap is_some held_absent;
      agrees =
          rw
            (
              insert_new l.lock_id (held_by_lock l) replayed absent,
              held_map-snoc ls l,
              included-snoc replayed (held_map ls) l.lock_id (held_by_lock l) held_absent there,
              included-snoc (held_map ls) replayed l.lock_id (held_by_lock l) absent back,
            )
            refl;
    }
