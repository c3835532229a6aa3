-- ===== src/Xray/Transactions.antt =====
-- The changes of `ActiveSet` as changes of a set of slots, in memory and in Xray.
use super_proxy.Base.{
  ℕ, zero, suc, ◌<◌, Bool, true, false, ◌&&◌, ◌||◌, not, Option, none, some, List, [], ◌∷◌, ◌++◌,
  ◌==◌, nat_eq, ltb, if◌then◌else◌, contains, All, ◌≡◌, ◌≢◌, ◌⊎◌, refl, arith, inl, inr, Bool-cases,
  if_either, Option-cases, ap, subst, sym,
}
use super_proxy.Base.Int.{ℤ, pos, negsuc}
use super_proxy.Xray.{Tag, tag_eq, tag_beq_iff, int_eq, int_beq_iff, exit, Api, Supervisor}
use super_proxy.Xray.Routing.{slots_of, routing}
use super_proxy.Xray.Slots.{Ascending, Ascending-ext, contains-slots_of, slots_of-Ascending}
use super_proxy.Xray.Verified.{IsConfirmed, verify-IsConfirmed}
use super_proxy.Xray.ActiveSet.{
  ApplyError, apply_error, active_below, get_active_slots_locked, set_outbound, commit_below, ints,
  applied, apply_candidate_routing, conclude,
}

contains-snoc : (xs : List ℕ) (n j : ℕ) → contains (xs ++ (n ∷ [])) j ≡ (contains xs j || (n == j))
contains-snoc [] n j = ground arith
contains-snoc (x ∷ xs) n j = ground (arith, contains-snoc xs n j)

pub contains-active_below :
    (n j : ℕ) (active : Tag → Bool)
    → contains (active_below n active) j ≡ (ltb j n && active (exit (pos j)))
unfolding active_below
contains-active_below zero j active = ground arith
contains-active_below (suc n) j active = elim (Bool-cases (n == j)) [
  | inl p ↦
      let same : n ≡ j = ground (arith, p) in
      ground (
        arith,
        p,
        contains-active_below n j active,
        contains-snoc (active_below n active) n j,
        ap (λ k. active (exit (pos k))) same,
      )
  | inr p ↦
      ground (arith, p, contains-active_below n j active, contains-snoc (active_below n active) n j)
]

snoc-All {ℓ} : (P : ℕ → Type ℓ) (xs : List ℕ) (n : ℕ) → All P xs → P n → All P (xs ++ (n ∷ []))
snoc-All P [] n a p = (p, tt)
snoc-All P (x ∷ xs) n a p = (a.0, snoc-All P xs n a.1 p)

snoc-Ascending :
    (xs : List ℕ) (n : ℕ) → Ascending xs → All (λ (x : ℕ). x < n) xs → Ascending (xs ++ (n ∷ []))
snoc-Ascending [] n a b = ground arith
snoc-Ascending (x ∷ xs) n a b =
    (snoc-All (λ (y : ℕ). x < y) xs n a.0 b.0, snoc-Ascending xs n a.1 b.1)

active_below-Below :
    (n m : ℕ) (active : Tag → Bool) → n < suc m → All (λ (x : ℕ). x < m) (active_below n active)
unfolding active_below
active_below-Below zero m active h = tt
active_below-Below (suc n) m active h =
    let below = active_below-Below n m active (omega arith) in
    if_either (All (λ (x : ℕ). x < m)) (active (exit (pos n)))
      (snoc-All (λ (x : ℕ). x < m) (active_below n active) n below (omega arith)) below

pub active_below-Ascending : (n : ℕ) (active : Tag → Bool) → Ascending (active_below n active)
unfolding active_below
active_below-Ascending zero active = tt
active_below-Ascending (suc n) active =
    if_either Ascending (active (exit (pos n)))
      (snoc-Ascending (active_below n active) n (active_below-Ascending n active)
        (active_below-Below n n active (omega arith)))
      (active_below-Ascending n active)

pub commit_below-lookup :
    (n j : ℕ) (slots : List ℕ) (active : Tag → Bool)
    → commit_below n slots active (exit (pos j))
      ≡ (if ltb j n then contains slots j else active (exit (pos j)))
unfolding commit_below set_outbound
commit_below-lookup zero j slots active = ground arith
commit_below-lookup (suc n) j slots active = elim (Bool-cases (n == j)) [
  | inl p ↦
      let same : n ≡ j = ground (arith, p) in
      ground (
        arith,
        p,
        (tag_beq_iff (exit (pos n)) (exit (pos j))).1 (ap (λ k. exit (pos k)) same),
        ap (contains slots) same,
      )
  | inr p ↦
      ground
        (arith, p, tag_beq_iff (exit (pos n)) (exit (pos j)), commit_below-lookup n j slots active)
]

pub data Change : Type 0 where
  sync : List ℤ → Change
  drain : ℤ → Change
  activate : ℤ → Change

abbrev pub is_active : Supervisor → ℕ → Bool
is_active s j = contains (get_active_slots_locked s) j

pub is_active_lem :
    (s : Supervisor) (j : ℕ)
    → is_active s j ≡ (ltb j s.slot_count && s.active_outbounds (exit (pos j)))
unfolding get_active_slots_locked
is_active_lem s j = contains-active_below s.slot_count j s.active_outbounds

-- The set of slots that a change asks for, from the one before it.
unfoldable pub wanted : ℕ → Change → (ℕ → Bool) → ℕ → Bool
wanted slot_count (sync cs) set j = ltb j slot_count && contains cs (pos j)
wanted slot_count (drain k) set j = set j && not (pos j == k)
wanted slot_count (activate k) set j = set j || (ltb j slot_count && (k == pos j))

pub contains-ints : (xs : List ℕ) (j : ℕ) → contains (ints xs) (pos j) ≡ contains xs j
contains-ints [] j = refl
contains-ints (x ∷ xs) j = ground (arith, contains-ints xs j, int_beq_iff (pos x) (pos j))

get_active_slots_locked-Ascending : (s : Supervisor) → Ascending (get_active_slots_locked s)
unfolding get_active_slots_locked
get_active_slots_locked-Ascending s = active_below-Ascending s.slot_count s.active_outbounds

-- What the routing of a supervisor depends on besides its slots.
abbrev pub settings : Supervisor → ℕ × Bool × Bool
settings s = (s.slot_count, s.vless_enabled, s.vless_only443)

module _ {X : Type 0} (xray : Api X) where
  -- Xray took the routing of the slots, which came to this state, and its read-back fits them.
  abbrev pub IsServed : ℕ × Bool × Bool → List ℕ → X → Type 0
  IsServed (n, vless, only443) slots x =
      ((y : X) × (xray.writes_file y ≡ true)
        × (xray.adrules (routing n vless only443 slots) y ≡ (x, true)))
      × IsConfirmed xray vless slots x

  applied-IsServed :
      (s : Supervisor) (slots : List ℕ) (draining : ℤ) (y : X) (r : X × Bool)
      → Ascending slots
      → xray.writes_file y ≡ true
      → xray.adrules (routing s.slot_count s.vless_enabled s.vless_only443 slots) y ≡ r
      → (applied xray s.vless_enabled slots draining r).1 ≡ none
      → IsServed (settings s) slots ((applied xray s.vless_enabled slots draining r).0)
  unfolding applied apply_error
  applied-IsServed s slots draining y (x, false) a written took h = ground (arith, h)
  applied-IsServed s slots draining y (x, true) a written took h = (
    (y, written, took),
    verify-IsConfirmed xray draining x s.vless_enabled slots a (ground (arith, h)),
  )

  apply-IsServed :
      (s : Supervisor) (cs : List ℤ) (draining : ℤ) (x : X)
      → (apply_candidate_routing xray s cs draining x).1 ≡ none
      → IsServed
          (settings s)
          (slots_of s.slot_count cs)
          ((apply_candidate_routing xray s cs draining x).0)
  unfolding apply_candidate_routing
  apply-IsServed s cs draining x h = elim (Bool-cases (xray.writes_file x)) [
    | inl p ↦ rw p (
        applied-IsServed s (slots_of s.slot_count cs) draining x
          (xray.adrules
            (routing s.slot_count s.vless_enabled s.vless_only443 (slots_of s.slot_count cs)) x)
          (slots_of-Ascending s.slot_count cs) p refl (rw p at h))
    | inr p ↦ ground (arith, h, p)
  ]

  -- The old set of a supervisor put back.
  unfoldable pub put_back : Supervisor → X → X × Option ApplyError
  put_back s x = apply_candidate_routing xray s (ints (get_active_slots_locked s)) (negsuc 0) x

  -- Xray took the routing of the supervisor's own set.
  abbrev pub Agrees : Supervisor → X → Type 0
  Agrees s x = IsServed (settings s) (get_active_slots_locked s) x

  -- A change that failed: memory has not changed, and the old set was put back, which Xray took unless
  -- that failed too.
  unfoldable pub IsRolledBack : Supervisor → Supervisor × X × Option ApplyError → Type 0
  IsRolledBack old (s, x, err) =
      (err ≢ none)
      × (s ≡ old)
      × (y : X) × (x ≡ (put_back old y).0)
      × (((put_back old y).1 ≢ none) ⊎ Agrees old x)

  unfoldable pub IsCommitted : Supervisor → Supervisor × X × Option ApplyError → Type 0
  IsCommitted new (s, x, err) = (err ≡ none) × (s ≡ new) × Agrees new x

  slots_of-ints :
      (s : Supervisor)
      → slots_of s.slot_count (ints (get_active_slots_locked s)) ≡ get_active_slots_locked s
  slots_of-ints s =
      let active = get_active_slots_locked s in
      Ascending-ext (slots_of s.slot_count (ints active)) active
        (slots_of-Ascending s.slot_count (ints active)) (get_active_slots_locked-Ascending s)
        (λ j. ground (
          arith,
          contains-slots_of s.slot_count j (ints active),
          contains-ints active j,
          is_active_lem s j,
        ))

  put_back-Agrees : (s : Supervisor) (y : X) → (put_back s y).1 ≡ none → Agrees s ((put_back s y).0)
  unfolding put_back
  put_back-Agrees s y h =
      subst
        (λ slots.
          IsServed (settings s) slots
            ((apply_candidate_routing xray s (ints (get_active_slots_locked s)) (negsuc 0) y).0))
        (slots_of-ints s) (apply-IsServed s (ints (get_active_slots_locked s)) (negsuc 0) y h)

  -- However the application ends, the change is committed or rolled back.
  conclude_lem :
      (old new : Supervisor) (r : X × Option ApplyError)
      → ((r.1 ≢ none) ⊎ Agrees new r.0)
      → IsCommitted new (conclude xray old new r) ⊎ IsRolledBack old (conclude xray old new r)
  unfolding conclude IsCommitted IsRolledBack put_back
  conclude_lem old new (x, none) (inl h) = absurd (h refl)
  conclude_lem old new (x, none) (inr h) = inl (refl, refl, h)
  conclude_lem old new (x, some err) h = inr (
    λ e. ground (arith, e),
    refl,
    x,
    refl,
    elim (Option-cases ((put_back old x).1)) [
      | inl e ↦ inr (put_back-Agrees old x e)
      | inr (err2, e) ↦ inl (λ n. ground (arith, n, e))
    ],
  )

  -- The candidates are the set that the new supervisor has.
  pub change_settles :
      (old new : Supervisor) (cs : List ℤ) (draining : ℤ) (x : X)
      → settings new ≡ settings old
      → ((j : ℕ) → is_active new j ≡ contains (slots_of old.slot_count cs) j)
      → let r = conclude xray old new (apply_candidate_routing xray old cs draining x) in
        IsCommitted new r ⊎ IsRolledBack old r
  change_settles old new cs draining x vless same =
      let slots = slots_of old.slot_count cs in
      let e : slots ≡ get_active_slots_locked new =
        Ascending-ext slots (get_active_slots_locked new) (slots_of-Ascending old.slot_count cs)
          (get_active_slots_locked-Ascending new) (λ j. sym (same j)) in
      let r = apply_candidate_routing xray old cs draining x in
      conclude_lem old new r (elim (Option-cases (r.1)) [
        | inl h ↦ inr (
            subst (λ on. IsServed on (get_active_slots_locked new) (r.0)) (sym vless)
              (subst (λ l. IsServed (settings old) l (r.0)) e (apply-IsServed old cs draining x h)))
        | inr (err, h) ↦ inl (λ n. ground (arith, n, h))
      ])
