-- ===== src/Resources/Locks/Joining.antt =====
-- A bundle without conflicts joins the held locks, and they stay exclusive.
use codex_autopilot.Prelude.{
  ◌≡◌, refl, ◌∙◌, inl, inr, Bool, true, false, not, List, [], ◌∷◌, ◌++◌, arith, Bool-cases, all,
  All, All-map, elem, append_empty,
}
use codex_autopilot.Resources.{NormalizedResourceClaim, DurableResourceLock}
use codex_autopilot.Resources.Targets.{claims_conflict}
use codex_autopilot.Resources.Targets.Overlap.{claims_conflict_comm}
use codex_autopilot.Resources.Conflicts.{bundles_conflict, all_apart}
use codex_autopilot.Resources.Journal.{distinct_numbers, tokens, owner_tasks, slots}
use codex_autopilot.Resources.Normalize.{Host}
use codex_autopilot.Resources.Locks.Exclusive.{
  IsExclusive, distinct-snoc, tokens-snoc, owner_tasks-snoc,
}
use codex_autopilot.Resources.Requests.{conflicts_in, conflicts_with, all_conflicts}

module _ (host : Host) where
  abbrev meets : NormalizedResourceClaim → NormalizedResourceClaim → Bool
  meets = claims_conflict host.fnmatchcase host.casefold

  abbrev pub IsApart : List NormalizedResourceClaim → DurableResourceLock → Type 0
  IsApart claims l = bundles_conflict host.fnmatchcase host.casefold l.claims claims ≡ false

  conflicts_in_none :
      (c : NormalizedResourceClaim) (l : DurableResourceLock) (hs : List NormalizedResourceClaim)
      → conflicts_in host c l hs ≡ []
      → All (λ h. meets h c ≡ false) hs
  unfolding conflicts_in
  conflicts_in_none c l [] e = tt
  conflicts_in_none c l (h ∷ hs) e = elim (Bool-cases (meets c h)) [
    | inl hit ↦ absurd (cc (rw hit at e))
    | inr free ↦ (
      claims_conflict_comm host.fnmatchcase host.casefold h c ∙ free,
      conflicts_in_none c l hs (rw free at e),
    )
  ]

  bundles-cons :
      (hs cs : List NormalizedResourceClaim) (c : NormalizedResourceClaim)
      → All (λ h. meets h c ≡ false) hs
      → bundles_conflict host.fnmatchcase host.casefold hs cs ≡ false
      → bundles_conflict host.fnmatchcase host.casefold hs (c ∷ cs) ≡ false
  bundles-cons [] cs c free rest = refl
  bundles-cons (h ∷ hs) cs c free rest = ground (arith, bundles-cons hs cs c free.1, free.0)

  bundles-nil :
      (hs : List NormalizedResourceClaim)
      → bundles_conflict host.fnmatchcase host.casefold hs [] ≡ false
  bundles-nil [] = refl
  bundles-nil (h ∷ hs) = bundles-nil hs

  lock-IsApart :
      (claims : List NormalizedResourceClaim) (l : DurableResourceLock)
      → All (λ c. conflicts_in host c l l.claims ≡ []) claims
      → IsApart claims l
  lock-IsApart [] l h = bundles-nil l.claims
  lock-IsApart (c ∷ cs) l h =
      bundles-cons l.claims cs c (conflicts_in_none c l l.claims h.0) (lock-IsApart cs l h.1)

  pub none_each :
      (claims : List NormalizedResourceClaim) (locks : List DurableResourceLock)
      → all_conflicts host claims locks ≡ []
      → All (λ c. conflicts_with host c locks ≡ []) claims
  unfolding all_conflicts
  none_each [] locks h = tt
  none_each (c ∷ cs) locks h =
      let (first, rest) =
        append_empty (conflicts_with host c locks) (all_conflicts host cs locks) h in
      (first, none_each cs locks rest)

  split_first :
      (l : DurableResourceLock) (ls : List DurableResourceLock) (c : NormalizedResourceClaim)
      → conflicts_with host c (l ∷ ls) ≡ []
      → (conflicts_in host c l l.claims ≡ []) × (conflicts_with host c ls ≡ [])
  unfolding conflicts_with
  split_first l ls c h = append_empty (conflicts_in host c l l.claims) (conflicts_with host c ls) h

  pub locks-IsApart :
      (claims : List NormalizedResourceClaim) (locks : List DurableResourceLock)
      → All (λ c. conflicts_with host c locks ≡ []) claims
      → All (IsApart claims) locks
  locks-IsApart claims [] h = tt
  locks-IsApart claims (l ∷ ls) h = (
    lock-IsApart claims l (All-map claims (λ c e. (split_first l ls c e).0) h),
    locks-IsApart claims ls (All-map claims (λ c e. (split_first l ls c e).1) h),
  )

  apart-each :
      (l k : DurableResourceLock) (ls : List DurableResourceLock)
      → IsApart k.claims l
      → all (λ o. not (bundles_conflict host.fnmatchcase host.casefold l.claims o.claims)) ls ≡ true
      → all
          (λ o. not (bundles_conflict host.fnmatchcase host.casefold l.claims o.claims))
          (ls ++ k ∷ [])
        ≡ true
  apart-each l k [] apart h = ground (arith, apart)
  apart-each l k (o ∷ ls) apart h = ground (arith, apart-each l k ls apart)

  all_apart-snoc :
      (ls : List DurableResourceLock) (k : DurableResourceLock)
      → all_apart host.fnmatchcase host.casefold ls ≡ true
      → All (IsApart k.claims) ls
      → all_apart host.fnmatchcase host.casefold (ls ++ k ∷ []) ≡ true
  unfolding all_apart
  all_apart-snoc [] k h apart = refl
  all_apart-snoc (l ∷ ls) k h apart =
      ground (arith, all_apart-snoc ls k _ apart.1, apart-each l k ls apart.0)

  -- The facts about a new lock that let it join the held ones.
  pub record CanJoin (locks : List DurableResourceLock) (l : DurableResourceLock) : Type 0 where
    pub token_new : elem l.owner.ownership_token (tokens locks) ≡ false
    pub task_new : elem l.owner.task_id (owner_tasks locks) ≡ false
    pub free : All (IsApart l.claims) locks
    pub slot_new : distinct_numbers (slots (locks ++ l ∷ [])) ≡ true

  pub join-IsExclusive :
      (locks : List DurableResourceLock) (l : DurableResourceLock)
      → IsExclusive host locks
      → CanJoin locks l
      → IsExclusive host (locks ++ l ∷ [])
  join-IsExclusive locks l ex j = record {
    apart = all_apart-snoc locks l ex.apart j.free;
    one_per_task =
        rw (owner_tasks-snoc locks l)
          (distinct-snoc (owner_tasks locks) l.owner.task_id ex.one_per_task j.task_new);
    one_per_token =
        rw (tokens-snoc locks l)
          (distinct-snoc (tokens locks) l.owner.ownership_token ex.one_per_token j.token_new);
    one_per_slot = j.slot_new;
  }
