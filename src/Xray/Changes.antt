-- ===== src/Xray/Changes.antt =====
-- Each change of the active set, against the set of slots it asks for.
use super_proxy.Base.{
  ℕ, Bool, true, false, ◌&&◌, ◌||◌, not, none, List, [], ◌∷◌, ◌==◌, nat_eq, ltb, Option, contains,
  filter, ◌≡◌, ◌⊎◌, refl, arith, inl, inr, Bool-cases, ◌∙◌, ap, sym, subst,
}
use super_proxy.Base.Int.{ℤ, pos, negsuc}
use super_proxy.Xray.{tag_eq, tag_beq_iff, int_eq, int_beq_iff, exit, Api, Supervisor}
use super_proxy.Xray.Routing.{slots_of}
use super_proxy.Xray.Slots.{contains-slots_of}
use super_proxy.Xray.ActiveSet.{
  ApplyError, get_active_slots_locked, set_outbound, commit_below, ints, sync_active_slots_locked,
  surviving, draining_slot, activate_slot,
}
use super_proxy.Xray.Transactions.{
  commit_below-lookup, Change, sync, drain, activate, is_active, is_active_lem, wanted, Agrees,
  IsRolledBack, IsCommitted, contains-ints, change_settles,
}

contains-without :
    (slot c : ℤ) (cs : List ℤ)
    → contains (filter (λ k. not (k == slot)) cs) c ≡ (contains cs c && not (c == slot))
contains-without slot c [] = ground arith
contains-without slot c (k ∷ cs) =
    ground
      (arith, contains-without slot c cs, int_beq_iff k c, int_beq_iff k slot, int_beq_iff c slot)

abbrev switched : ℤ → Bool → Supervisor → Supervisor
unfolding set_outbound
switched k on s = record s { active_outbounds = set_outbound (exit k) on s.active_outbounds }

drained :
    (k : ℤ) (s : Supervisor) (j : ℕ)
    → is_active (switched k false s) j ≡ (is_active s j && not (pos j == k))
unfolding set_outbound
drained k s j = ground (
  arith,
  is_active_lem s j,
  is_active_lem (switched k false s) j,
  tag_beq_iff (exit k) (exit (pos j)),
  int_beq_iff (pos j) k,
)

activated :
    (k : ℤ) (s : Supervisor) (j : ℕ)
    → is_active (switched k true s) j ≡ (is_active s j || (ltb j s.slot_count && (k == pos j)))
unfolding set_outbound
activated k s j = ground (
  arith,
  is_active_lem s j,
  is_active_lem (switched k true s) j,
  tag_beq_iff (exit k) (exit (pos j)),
  int_beq_iff k (pos j),
)

survives :
    (k : ℤ) (s : Supervisor) (j : ℕ)
    → contains (slots_of s.slot_count (surviving k (get_active_slots_locked s))) j
      ≡ (is_active s j && not (pos j == k))
unfolding surviving
survives k s j =
    let active = get_active_slots_locked s in
    ground (
      arith,
      contains-slots_of s.slot_count j (surviving k active),
      contains-without k (pos j) (ints active),
      contains-ints active j,
      is_active_lem s j,
    )

joined :
    (k : ℤ) (s : Supervisor) (j : ℕ)
    → contains (slots_of s.slot_count (k ∷ ints (get_active_slots_locked s))) j
      ≡ (is_active s j || (ltb j s.slot_count && (k == pos j)))
joined k s j =
    let active = get_active_slots_locked s in
    ground (
      arith,
      contains-slots_of s.slot_count j (k ∷ ints active),
      contains-ints active j,
      is_active_lem s j,
    )

-- There is nothing to drain, or to activate.
not_drained :
    (k : ℤ) (s : Supervisor) (j : ℕ)
    → s.active_outbounds (exit k) ≡ false
    → is_active s j ≡ (is_active s j && not (pos j == k))
not_drained k s j off = elim (Bool-cases (pos j == k)) [
  | inl p ↦
      let e = (int_beq_iff (pos j) k).0 p in
      ground (arith, p, off, is_active_lem s j, ap (λ t. s.active_outbounds (exit t)) e)
  | inr p ↦ ground (arith, p)
]

not_activated :
    (k : ℤ) (s : Supervisor) (j : ℕ)
    → s.active_outbounds (exit k) ≡ true
    → is_active s j ≡ (is_active s j || (ltb j s.slot_count && (k == pos j)))
not_activated k s j on = elim (Bool-cases (k == pos j)) [
  | inl p ↦
      let e = (int_beq_iff k (pos j)).0 p in
      ground (arith, p, on, is_active_lem s j, ap (λ t. s.active_outbounds (exit t)) e)
  | inr p ↦ ground (arith, p)
]

module _ {X : Type 0} (xray : Api X) where
  unfoldable pub perform : Change → Supervisor × X → Supervisor × X × Option ApplyError
  perform (sync cs) p = sync_active_slots_locked xray cs p
  perform (drain k) p = draining_slot xray k p
  perform (activate k) p = activate_slot xray k p

  -- The change was made: the supervisor has the set that it asks for, and Xray serves that set, unless
  -- there was nothing to do and nothing was done.
  unfoldable pub IsMade : Change → Supervisor × X → Supervisor × X × Option ApplyError → Type 0
  IsMade change (s, x) (new, y, err) =
      (err ≡ none)
      × ((j : ℕ) → is_active new j ≡ wanted s.slot_count change (is_active s) j)
      × (Agrees xray new y ⊎ ((new ≡ s) × (y ≡ x)))

  committed-IsMade :
      (change : Change) (old new : Supervisor) (x : X) (r : Supervisor × X × Option ApplyError)
      → ((j : ℕ) → is_active new j ≡ wanted old.slot_count change (is_active old) j)
      → (IsCommitted xray new r ⊎ IsRolledBack xray old r)
      → IsMade change (old, x) r ⊎ IsRolledBack xray old r
  unfolding IsCommitted IsMade
  committed-IsMade change old new x (s, y, err) same (inl (ok, e, agrees)) = inl (
    ok,
    λ j. ap (λ t. is_active t j) e ∙ same j,
    inl (subst (λ t. Agrees xray t y) (sym e) agrees),
  )
  committed-IsMade change old new x r same (inr rolled) = inr rolled

  sync-IsMade :
      (cs : List ℤ) (s : Supervisor) (x : X)
      → let r = perform (sync cs) (s, x) in IsMade (sync cs) (s, x) r ⊎ IsRolledBack xray s r
  unfolding perform sync_active_slots_locked wanted
  sync-IsMade cs s x =
      let slots = slots_of s.slot_count cs in
      let new = record s {
        active_outbounds = commit_below s.slot_count slots s.active_outbounds;
      } in
      let active : ((j : ℕ) → is_active new j ≡ contains slots j) = λ j. ground (
        arith,
        is_active_lem new j,
        commit_below-lookup s.slot_count j slots s.active_outbounds,
        contains-slots_of s.slot_count j cs,
      ) in
      committed-IsMade (sync cs) s new x _ (λ j. active j ∙ contains-slots_of s.slot_count j cs)
        (change_settles xray s new cs (negsuc 0) x refl active)

  drain-IsMade :
      (k : ℤ) (s : Supervisor) (x : X)
      → let r = perform (drain k) (s, x) in IsMade (drain k) (s, x) r ⊎ IsRolledBack xray s r
  unfolding perform draining_slot wanted IsMade
  drain-IsMade k s x = elim (Bool-cases (s.active_outbounds (exit k))) [
    | inl p ↦ rw p (
        let new = switched k false s in
        committed-IsMade (drain k) s new x _ (drained k s) (
          change_settles xray s new (surviving k (get_active_slots_locked s)) k x refl
            (λ j. drained k s j ∙ sym (survives k s j))))
    | inr p ↦ rw p (inl (refl, λ j. not_drained k s j p, inr (refl, refl)))
  ]

  activate-IsMade :
      (k : ℤ) (s : Supervisor) (x : X)
      → let r = perform (activate k) (s, x) in IsMade (activate k) (s, x) r ⊎ IsRolledBack xray s r
  unfolding perform activate_slot wanted IsMade
  activate-IsMade k s x = elim (Bool-cases (s.active_outbounds (exit k))) [
    | inl p ↦ rw p (inl (refl, λ j. not_activated k s j p, inr (refl, refl)))
    | inr p ↦ rw p (
        let new = switched k true s in
        committed-IsMade (activate k) s new x _ (activated k s) (
          change_settles xray s new (k ∷ ints (get_active_slots_locked s)) (negsuc 0) x refl
            (λ j. activated k s j ∙ sym (joined k s j))))
  ]

-- A change of the active set is made or it is rolled back. Made: the supervisor's set is what the change
-- asks for, Xray accepted the routing of exactly that set as the last call that it was given, and the
-- read-back fits the set, unless there was nothing to do and nothing was done. Rolled back: it returns an
-- error, the supervisor is as before, and Xray accepted the routing of the old set, and the read-back fits
-- it, unless putting it back failed as well. That the read-back fits a set means that the listed
-- rule of each enabled ingress blocks for no slot, names the outbound of one slot, or for more slots
-- names no outbound and no balancer but that of the set, which then selects exactly their outbounds; a
-- rule that is listed without a balancer fits too.
pub perform_outcome :
    {X : Type 0} (xray : Api X) (change : Change) (s : Supervisor) (x : X)
    → let r = perform xray change (s, x) in IsMade xray change (s, x) r ⊎ IsRolledBack xray s r
perform_outcome xray (sync cs) s x = sync-IsMade xray cs s x
perform_outcome xray (drain k) s x = drain-IsMade xray k s x
perform_outcome xray (activate k) s x = activate-IsMade xray k s x
