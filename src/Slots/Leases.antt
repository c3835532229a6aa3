-- ===== src/Slots/Leases.antt =====
-- The leases of slot_controller.go over a history of calls. Callers hold on to every lease that they
-- were given, and may release any of them at any time and any number of times.
use super_proxy.Base.{
  ℕ, zero, suc, ◌+◌, ◌≤◌, ◌<◌, String, ◌≡◌, ◌≢◌, refl, ◌⊎◌, inl, inr, Option, none, some, List, [],
  ◌∷◌, arith, length, All, get_elem?, Option-cases, string_eq,
}
use super_proxy.Slots.{
  SlotController, SlotLease, new_slot_controller, u64_mod, try_acquire, release_lease,
}

pub data Call : Type 0 where
  acquires : String → String → Call
  releases : ℕ → Call  -- the lease that was granted so many grants ago

-- The controller, and the leases granted so far, the latest first.
pub record History : Type 0 where
  pub sc : SlotController
  pub issued : List SlotLease

abbrev granted : SlotController × Option SlotLease → List SlotLease → History
granted (sc, none) issued = record { sc = sc; issued = issued }
granted (sc, some lease) issued = record { sc = sc; issued = lease ∷ issued }

unfoldable pub step : History → Call → History
step h (acquires owner op_id) = granted (try_acquire h.sc owner op_id) h.issued
step h (releases i) = elim (get_elem? h.issued i) [
  | none ↦ h
  | some lease ↦ record h { sc = release_lease h.sc lease }
]

unfoldable pub run : History → List Call → History
unfolding step
run h [] = h
run h (c ∷ cs) = run (step h c) cs

unfoldable pub start : ℕ → History
start slot_id = record { sc = new_slot_controller slot_id; issued = [] }

-- No caller gives the empty string as its name.
abbrev pub IsNamed : Call → Type 0
IsNamed (acquires owner op_id) = owner ≢ ""
IsNamed (releases i) = Unit

-- Grants are numbered from 1.
abbrev pub Numbered : List SlotLease → Type 0
Numbered [] = Unit {0}
Numbered (l ∷ ls) = (l.generation ≡ suc (length ls)) × (l.owner ≢ "") × Numbered ls

-- The owner is the latest lease's, or nobody.
abbrev pub Held : SlotController → List SlotLease → Type 0
Held sc [] = (sc.owner ≡ "") × (sc.operation_id ≡ "")
Held sc (l ∷ ls) =
    ((sc.owner ≡ "") × (sc.operation_id ≡ ""))
    ⊎ ((sc.owner ≡ l.owner) × (sc.operation_id ≡ l.operation_id))

pub record Inv (h : History) : Type 0 where
  pub counted : h.sc.generation ≡ length h.issued
  pub numbered : Numbered h.issued
  pub held : Held h.sc h.issued

pub start-Inv : (slot_id : ℕ) → Inv (start slot_id)
unfolding start new_slot_controller
start-Inv slot_id = record { counted = refl; numbered = tt; held = (refl, refl) }

pub generation-get_elem? :
    (ls : List SlotLease) (i : ℕ) {l : SlotLease}
    → Numbered ls
    → get_elem? ls i ≡ some l
    → (l.generation + i ≡ length ls) × (l.owner ≢ "")
generation-get_elem? [] i n h = cc
generation-get_elem? (x ∷ xs) zero n h = ground arith
generation-get_elem? (x ∷ xs) (suc i) {l} n h =
    ground (arith, generation-get_elem? xs i {l = l} n.2 h)

acquires-Inv :
    (h : History) (owner op_id : String)
    → owner ≢ ""
    → length h.issued + 1 < u64_mod
    → Inv h
    → Inv (step h (acquires owner op_id))
unfolding step try_acquire
acquires-Inv h owner op_id named room v = ground (arith, string_eq.beq_iff h.sc.owner "")

free-Held :
    (sc : SlotController) (ls : List SlotLease)
    → Held (record sc { owner = ""; operation_id = "" }) ls
free-Held sc [] = (refl, refl)
free-Held sc (l ∷ ls) = inl (refl, refl)

releases-Inv : (h : History) (i : ℕ) → Inv h → Inv (step h (releases i))
unfolding step release_lease
releases-Inv h i v = elim (Option-cases (get_elem? h.issued i)) [
  | inl e ↦ rw (e, step) v
  | inr (lease, e) ↦ rw (e, step) (ground (arith, free-Held h.sc h.issued))
]

pub step-Inv :
    (h : History) (c : Call) → IsNamed c → length h.issued + 1 < u64_mod → Inv h → Inv (step h c)
step-Inv h (acquires owner op_id) named room v = acquires-Inv h owner op_id named room v
step-Inv h (releases i) named room v = releases-Inv h i v

issued-step : (h : History) (c : Call) → length (step h c).issued ≤ length h.issued + 1
unfolding step
issued-step h (acquires owner op_id) = ground arith
issued-step h (releases i) = ground arith

pub run-Inv :
    (h : History) (cs : List Call)
    → All IsNamed cs
    → length h.issued + length cs < u64_mod
    → Inv h
    → Inv (run h cs)
unfolding run
run-Inv h [] named room v = v
run-Inv h (c ∷ cs) named room v =
    run-Inv (step h c) cs named.1 (omega (arith, issued-step h c))
      (step-Inv h c named.0 (omega arith) v)

pub issued-run :
    (h : History) (cs : List Call) → length (run h cs).issued ≤ length h.issued + length cs
unfolding run
issued-run h [] = omega arith
issued-run h (c ∷ cs) = omega (arith, issued-run (step h c) cs, issued-step h c)
