-- ===== src/Xray/ActiveSet.antt =====
-- internal/xray/supervisor.go: the changes of the active set. Each applies the candidate set to Xray,
-- verifies what Xray answers, and only then commits it to memory; where that fails it applies the old
-- set again.
use super_proxy.Base.{
  ℕ, zero, suc, Bool, true, false, not, Option, none, some, List, [], ◌∷◌, ◌++◌, ◌==◌, nat_eq, map,
  if◌then◌else◌, contains, filter,
}
use super_proxy.Base.Int.{ℤ, pos, negsuc}
use super_proxy.Xray.{Tag, tag_eq, exit, Api, Supervisor, int_eq}
use super_proxy.Xray.Routing.{slots_of, routing}
use super_proxy.Xray.ReadBack.{ReadBackError, verify_runtime_routing}

pub data ApplyError : Type 0 where
  no_rules_file adrules_failed : ApplyError
  read_back : ReadBackError → ApplyError

-- getActiveSlotsLocked, over the slots below a bound.
unfoldable pub active_below : ℕ → (Tag → Bool) → List ℕ
active_below zero active = []
active_below (suc n) active =
    let below = active_below n active in if active (exit (pos n)) then below ++ (n ∷ []) else below

unfoldable pub get_active_slots_locked : Supervisor → List ℕ
unfolding active_below
get_active_slots_locked s = active_below s.slot_count s.active_outbounds

-- `s.activeOutbounds[tag] = value`
unfoldable pub set_outbound : Tag → Bool → (Tag → Bool) → Tag → Bool
set_outbound tag value active t = if tag == t then value else active t

-- The loop of syncActiveSlotsLocked that commits.
unfoldable pub commit_below : ℕ → List ℕ → (Tag → Bool) → Tag → Bool
unfolding set_outbound
commit_below zero slots active = active
commit_below (suc n) slots active =
    set_outbound (exit (pos n)) (contains slots n) (commit_below n slots active)

abbrev pub ints : List ℕ → List ℤ
ints slots = map pos slots

unfoldable pub apply_error : Option ReadBackError → Option ApplyError
apply_error none = none
apply_error (some err) = some (read_back err)

-- The slots of `old` without one.
unfoldable pub surviving : ℤ → List ℕ → List ℤ
surviving slot old = filter (λ k. not (k == slot)) (ints old)

-- The number after "exit-".
unfoldable pub slot_in_tag : (Tag → Option ℤ) → Tag → Option ℤ
slot_in_tag atoi (exit k) = some k
slot_in_tag atoi tag = atoi tag

module _ {X : Type 0} (xray : Api X) where
  unfoldable pub applied : Bool → List ℕ → ℤ → X × Bool → X × Option ApplyError
  unfolding apply_error
  applied vless_enabled slots draining (x, false) = (x, some adrules_failed)
  applied vless_enabled slots draining (x, true) =
      (x, apply_error (verify_runtime_routing xray slots draining x vless_enabled))

  -- applyCandidateRoutingLocked
  unfoldable pub apply_candidate_routing : Supervisor → List ℤ → ℤ → X → X × Option ApplyError
  unfolding applied
  apply_candidate_routing s candidates draining x =
      let slots = slots_of s.slot_count candidates in
      if xray.writes_file x
      then applied s.vless_enabled slots draining
          (xray.adrules (routing s.slot_count s.vless_enabled s.vless_only443 slots) x)
      else (x, some no_rules_file)

  -- The end of each change: the committed supervisor, or the old one and its routing put back.
  unfoldable pub conclude :
      Supervisor → Supervisor → X × Option ApplyError → Supervisor × X × Option ApplyError
  conclude old new (x, none) = (new, x, none)
  conclude old new (x, some err) = (
    old,
    (apply_candidate_routing old (ints (get_active_slots_locked old)) (negsuc 0) x).0,
    some err,
  )

  -- syncActiveSlotsLocked
  unfoldable pub sync_active_slots_locked :
      List ℤ → Supervisor × X → Supervisor × X × Option ApplyError
  unfolding conclude commit_below
  sync_active_slots_locked candidates (s, x) =
      conclude s
        (record s {
          active_outbounds =
              commit_below s.slot_count (slots_of s.slot_count candidates) s.active_outbounds;
        })
        (apply_candidate_routing s candidates (negsuc 0) x)

  -- DrainingSlot
  unfoldable pub draining_slot : ℤ → Supervisor × X → Supervisor × X × Option ApplyError
  unfolding conclude set_outbound surviving
  draining_slot slot (s, x) =
      if s.active_outbounds (exit slot)
      then conclude s
          (record s { active_outbounds = set_outbound (exit slot) false s.active_outbounds })
          (apply_candidate_routing s (surviving slot (get_active_slots_locked s)) slot x)
      else (s, x, none)

  -- ActivateSlot; the candidates become a set, so one more of them does not matter.
  unfoldable pub activate_slot : ℤ → Supervisor × X → Supervisor × X × Option ApplyError
  unfolding conclude set_outbound
  activate_slot slot (s, x) =
      if s.active_outbounds (exit slot)
      then (s, x, none)
      else conclude s
          (record s { active_outbounds = set_outbound (exit slot) true s.active_outbounds })
          (apply_candidate_routing s (slot ∷ ints (get_active_slots_locked s)) (negsuc 0) x)

  -- The tail of EnableOutbound and of DisableOutbound: a tag that names no number is only recorded.
  unfoldable pub set_tag : Tag → Bool → Supervisor × X → Supervisor × X × Option ApplyError
  set_tag tag on (s, x) =
      (record s { active_outbounds = set_outbound tag on s.active_outbounds }, x, none)

  unfoldable pub disable_named :
      Tag → Option ℤ → Supervisor × X → Supervisor × X × Option ApplyError
  unfolding set_tag draining_slot
  disable_named tag none p = set_tag tag false p
  disable_named tag (some slot) p = draining_slot slot p

  unfoldable pub enable_named : Tag → Option ℤ → Supervisor × X → Supervisor × X × Option ApplyError
  unfolding set_tag activate_slot
  enable_named tag none p = set_tag tag true p
  enable_named tag (some slot) p = activate_slot slot p

  -- DisableOutbound; `atoi` is strconv.Atoi on the text of a tag that is no printed slot.
  unfoldable pub disable_outbound :
      (Tag → Option ℤ) → Tag → Supervisor × X → Supervisor × X × Option ApplyError
  unfolding disable_named
  disable_outbound atoi tag p = disable_named tag (slot_in_tag atoi tag) p

  -- EnableOutbound
  unfoldable pub enable_outbound :
      (Tag → Option ℤ) → Tag → ℤ → Supervisor × X → Supervisor × X × Option ApplyError
  unfolding enable_named
  enable_outbound atoi tag mark (s, x) =
      enable_named tag (slot_in_tag atoi tag)
        (record s { outbound_marks = λ t. if tag == t then mark else s.outbound_marks t }, x)

-- IsOutboundActive
unfoldable pub is_outbound_active : Tag → Supervisor → Bool
is_outbound_active tag s = s.active_outbounds tag
