-- ===== src/Resources/Locks/Releases.antt =====
-- After a release, too, the locks and their journal agree (release_resources_in_state of
-- src/codex_autopilot/resources.py).
use codex_autopilot.Prelude.{
  suc, String, ◌≡◌, refl, ap, ◌∙◌, subst, inl, inr, Bool, true, false, not, ◌&&◌, some, List, [],
  ◌∷◌, arith, eq_iff, ◌==◌, ==_refl, Bool-cases, Option-cases, filter_by, all, All, All-map, elem,
  IsDistinct, Dict, lookup, keys, All-lookup, ok, >>=-eq-ok, ensure-bind-eq-ok, ok-injective,
  delete,
}
use codex_autopilot.RunState.{RunState}
use codex_autopilot.Resources.{DurableResourceLock, LockEvent}
use codex_autopilot.Resources.Normalize.{Host, strip, is_blank}
use codex_autopilot.Resources.Requests.{find_token}
use codex_autopilot.Resources.Journal.{
  distinct, lock_ids, tokens, claim_ids_of, Held, same_held, is_included, same_map, held_by_lock,
  held_map, start, replay_released, replay_event,
}
use codex_autopilot.Resources.Journal.Appends.{replay-snoc}
use codex_autopilot.Resources.Journal.Removal.{
  replay-IsDistinct, StandsIn, is_included_sound, is_included_complete, lookup-delete_ne,
  All-delete,
}
use codex_autopilot.Resources.Locks.{release_resources_in_state, append_resource_event}
use codex_autopilot.Resources.Locks.Accepted.{
  IsAccepted, validated, validate-IsAccepted, accepted-validate, counted_after, leb_one-suc,
  named_once,
}
use codex_autopilot.Resources.Locks.Exclusive.{IsExclusive, validate_persisted_sound}
use codex_autopilot.Resources.Locks.Release.{all-filter_by, release_resources_in_state-IsReleased}

module _ (token : String) where
  abbrev keep : DurableResourceLock → Bool
  keep l = not (l.owner.ownership_token == token)

  kept_all :
      (ls : List DurableResourceLock) → elem token (tokens ls) ≡ false → filter_by keep ls ≡ ls
  kept_all [] h = refl
  kept_all (l ∷ ls) h =
      let mine : keep l ≡ true = ground (arith, h) in
      rw (mine, kept_all ls (ground (arith, h))) refl

  ids_kept :
      (k : String) (ls : List DurableResourceLock)
      → elem k (lock_ids ls) ≡ false
      → elem k (lock_ids (filter_by keep ls)) ≡ false
  ids_kept k [] h = refl
  ids_kept k (l ∷ ls) h = ground (arith, ids_kept k ls)

  ids_once-filter_by :
      (ls : List DurableResourceLock)
      → distinct (lock_ids ls) ≡ true
      → distinct (lock_ids (filter_by keep ls)) ≡ true
  ids_once-filter_by [] h = refl
  ids_once-filter_by (l ∷ ls) h = ground (arith, ids_once-filter_by ls, ids_kept l.lock_id ls)

  found_id :
      (ls : List DurableResourceLock) (l : DurableResourceLock)
      → find_token token ls ≡ some l
      → elem l.lock_id (lock_ids ls) ≡ true
  unfolding find_token
  found_id [] l h = absurd (cc h)
  found_id (k ∷ ls) l h = elim (Bool-cases (k.owner.ownership_token == token)) [
    | inl same ↦
        let is_l : k ≡ l = cc (rw same at h) in
        subst (λ (m : DurableResourceLock). elem m.lock_id (lock_ids (k ∷ ls)) ≡ true) is_l
          (ground (arith, ==_refl k.lock_id))
    | inr other ↦ let later = found_id ls l (rw other at h) in ground (arith, later)
  ]

  -- The map of the held locks without the one that the token holds.
  record IsRemoved (ls : List DurableResourceLock) (l : DurableResourceLock) : Type 1 where
    held : lookup l.lock_id (held_map ls) ≡ some (held_by_lock l)
    others :
        (k : String)
        → (l.lock_id == k) ≡ false
        → lookup k (held_map (filter_by keep ls)) ≡ lookup k (held_map ls)
    entries :
        (P : String × Held → Type 0)
        → All P (held_map ls)
        → All (λ e. P e × ((l.lock_id == e.0) ≡ false)) (held_map (filter_by keep ls))

  apart_all :
      (k : String) (ls : List DurableResourceLock) (P : String × Held → Type 0)
      → elem k (lock_ids ls) ≡ false
      → All P (held_map ls)
      → All (λ e. P e × ((k == e.0) ≡ false)) (held_map ls)
  unfolding held_map
  apart_all k [] P h p = tt
  apart_all k (l ∷ ls) P h p = (
    (p.0, ground (arith, h, eq_iff k l.lock_id, eq_iff l.lock_id k)),
    apart_all k ls P (ground (arith, h)) p.1,
  )

  remove :
      (ls : List DurableResourceLock) (l : DurableResourceLock)
      → find_token token ls ≡ some l
      → distinct (lock_ids ls) ≡ true
      → distinct (tokens ls) ≡ true
      → IsRemoved ls l
  unfolding find_token held_map lookup
  remove [] l h ids_once tokens_once = absurd (cc h)
  remove (k ∷ ls) l h ids_once tokens_once = elim (Bool-cases (k.owner.ownership_token == token)) [
    | inl same ↦
        let is_l : k ≡ l = cc (rw same at h) in
        let is_token = (eq_iff k.owner.ownership_token token).0 same in
        let token_new : elem token (tokens ls) ≡ false =
          subst (λ t. elem t (tokens ls) ≡ false) is_token (ground (arith, tokens_once)) in
        let rest_kept = kept_all ls token_new in
        let id_new : elem k.lock_id (lock_ids ls) ≡ false = ground (arith, ids_once) in
        subst (IsRemoved (k ∷ ls)) is_l (record {
          held = rw (==_refl k.lock_id) refl;
          others = λ j differs. rw (same, rest_kept, differs) refl;
          entries = λ P p. rw (same, rest_kept) (apart_all k.lock_id ls P id_new p.1);
        })
    | inr other ↦
        let r =
          remove ls l (rw other at h) (ground (arith, ids_once)) (ground (arith, tokens_once)) in
        let there = found_id ls l (rw other at h) in
        let id_new : elem k.lock_id (lock_ids ls) ≡ false = ground (arith, ids_once) in
        let differs : (k.lock_id == l.lock_id) ≡ false =
          elim (Bool-cases (k.lock_id == l.lock_id)) [
            | inl equal ↦ absurd (cc ((eq_iff k.lock_id l.lock_id).0 equal, id_new, there))
            | inr apart ↦ apart
          ] in
        let flipped : (l.lock_id == k.lock_id) ≡ false =
          ground (arith, differs, eq_iff k.lock_id l.lock_id, eq_iff l.lock_id k.lock_id) in
        record {
          held = rw differs r.held;
          others = λ j e. elim (Bool-cases (k.lock_id == j)) [
            | inl here ↦ rw (other, here) refl
            | inr elsewhere ↦ rw (other, elsewhere) (r.others j e)
          ];
          entries = λ P p. rw other ((p.0, flipped), r.entries P p.1);
        }
  ]

found_passes :
    (token : String) (p : DurableResourceLock → Bool) (ls : List DurableResourceLock)
    (l : DurableResourceLock)
    → all p ls ≡ true
    → find_token token ls ≡ some l
    → p l ≡ true
unfolding find_token
found_passes token p [] l h found = absurd (cc found)
found_passes token p (k ∷ ls) l h found = elim (Bool-cases (k.owner.ownership_token == token)) [
  | inl same ↦
      let is_l : k ≡ l = cc (rw same at found) in subst (λ m. p m ≡ true) is_l (ground arith)
  | inr other ↦ found_passes token p ls l (ground arith) (rw other at found)
]

-- The two maps after the entry of the released lock has left both.
removed_agrees :
    (token : String) (replayed : Dict Held) (ls : List DurableResourceLock)
    (l : DurableResourceLock)
    → IsDistinct (keys replayed)
    → IsRemoved token ls l
    → same_map replayed (held_map ls) ≡ true
    → ((w : Held) × (lookup l.lock_id replayed ≡ some w) × (same_held w (held_by_lock l) ≡ true))
      × (same_map (delete l.lock_id replayed) (held_map (filter_by (keep token) ls)) ≡ true)
unfolding same_map
removed_agrees token replayed ls l once r agrees =
    let there = is_included_sound replayed (held_map ls) (ground arith) in
    let back = is_included_sound (held_map ls) replayed (ground arith) in
    let (w, found, _) =
      All-lookup (StandsIn replayed) (held_map ls) l.lock_id (held_by_lock l) back r.held in
    let (v, held, like) = All-lookup (StandsIn (held_map ls)) replayed l.lock_id w there found in
    let same : v ≡ held_by_lock l = cc (held, r.held) in
    let forth : is_included (delete l.lock_id replayed) (held_map (filter_by (keep token) ls))
        ≡ true =
      is_included_complete (delete l.lock_id replayed) (held_map (filter_by (keep token) ls)) (
        All-map (delete l.lock_id replayed)
          (λ (e : String × Held) (s : StandsIn (held_map ls) e × ((l.lock_id == e.0) ≡ false)).
            (s.0.0, r.others e.0 s.1 ∙ s.0.1, s.0.2))
          (All-delete (StandsIn (held_map ls)) l.lock_id replayed once there)) in
    let and_back : is_included (held_map (filter_by (keep token) ls)) (delete l.lock_id replayed)
        ≡ true =
      is_included_complete (held_map (filter_by (keep token) ls)) (delete l.lock_id replayed) (
        All-map (held_map (filter_by (keep token) ls))
          (λ (e : String × Held) (s : StandsIn replayed e × ((l.lock_id == e.0) ≡ false)).
            (s.0.0, lookup-delete_ne l.lock_id e.0 replayed s.1 ∙ s.0.1, s.0.2))
          (r.entries (StandsIn replayed) back)) in
    ((w, found, subst (λ u. same_held w u ≡ true) same like), rw (forth, and_back) refl)

module _ (host : Host) where
  release_event : RunState → DurableResourceLock → String → String → LockEvent
  release_event s l now reason = record {
    sequence = suc s.resource_journal_sequence;
    event = "released";
    lock_id = l.lock_id;
    ownership_token = l.owner.ownership_token;
    task_id = l.owner.task_id;
    at = now;
    claim_ids = claim_ids_of l;
    computer_use_slot = l.computer_use_slot;
    reason = some reason;
  }

  abbrev released_state : RunState → String → DurableResourceLock → String → String → RunState
  released_state s token l now reason =
      append_resource_event (record s { resource_locks = filter_by (keep token) s.resource_locks })
        l "released" now (some reason)

  released-IsAccepted :
      (s : RunState) (token : String) (l : DurableResourceLock) (now reason : String)
      → IsAccepted host s
      → IsExclusive host s.resource_locks
      → find_token token s.resource_locks ≡ some l
      → IsAccepted host (released_state s token l now reason)
  unfolding append_resource_event release_event replay_event replay_released
  released-IsAccepted s token l now reason a ex found =
      let e = release_event s l now reason in
      let removed = remove token s.resource_locks l found a.ids_once ex.one_per_token in
      let once = replay-IsDistinct start s.resource_lock_journal tt a.replayed in
      let (active, agrees) =
        removed_agrees token a.end.replayed s.resource_locks l once removed a.agrees in
      let named : distinct (claim_ids_of l) ≡ true =
        found_passes token (named_once host) s.resource_locks l a.claims_once found in
      record {
        ids_once = ids_once-filter_by token s.resource_locks a.ids_once;
        claims_once = all-filter_by (keep token) (named_once host) s.resource_locks a.claims_once;
        end = record a.end { replayed = delete l.lock_id a.end.replayed };
        replayed =
            replay-snoc start s.resource_lock_journal e a.replayed
            ∙ rw (leb_one-suc s.resource_journal_sequence, named, active.1, active.2) refl;
        counted =
            counted_after s.resource_lock_journal s.resource_journal_sequence e a.counted refl;
        agrees = agrees;
      }

  -- The state that a release returns, whether or not it released a lock, passes the next validation
  -- of the locks against the journal.
  pub release_resources_in_state_validates :
      (state : RunState) (raw_token raw_reason now : String) {after : RunState} {released : Bool}
      → release_resources_in_state host state raw_token raw_reason now ≡ ok (after, released)
      → validated host after ≡ ok after.resource_locks
  unfolding release_resources_in_state
  release_resources_in_state_validates state raw_token raw_reason now {after} {released} h =
      let token = strip raw_token in
      let (_, h₁) =
        ensure-bind-eq-ok (not (is_blank raw_token) && not (is_blank raw_reason)) _ _ h in
      let (locks, valid, h₂) = >>=-eq-ok (validated host state) _ h₁ in
      let (same, ex) =
        validate_persisted_sound host state.resource_locks state.resource_lock_journal
          state.resource_journal_sequence valid in
      let a = validate-IsAccepted host state valid in
      let accepted : IsAccepted host after = elim (Option-cases (find_token token locks)) [
        | inl absent ↦
            let unchanged : state ≡ after = ap (λ r. r.0) (ok-injective (rw absent at h₂)) in
            subst (IsAccepted host) unchanged a
        | inr found ↦
            let reached : append_resource_event
                  (record state { resource_locks = filter_by (keep token) locks }) found.0
                  "released" now (some (strip raw_reason))
                ≡ after =
              ap (λ r. r.0) (ok-injective (rw found.1 at h₂)) in
            let from_state : released_state state token found.0 now (strip raw_reason) ≡ after =
              subst
                (λ ls.
                  append_resource_event
                    (record state { resource_locks = filter_by (keep token) ls }) found.0 "released"
                    now (some (strip raw_reason))
                  ≡ after)
                same reached in
            subst (IsAccepted host) from_state (
              released-IsAccepted state token found.0 now (strip raw_reason) a ex
                (subst (λ ls. find_token token ls ≡ some found.0) same found.1))
      ] in
      accepted-validate host after
        (release_resources_in_state-IsReleased host state raw_token raw_reason now h).exclusive
        accepted
