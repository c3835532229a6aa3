-- ===== src/Slots/Exclusion.antt =====
-- What the leases of slot_controller.go promise to their holders, over every history of calls that
-- makes fewer than 2 ^ 64 - 1 of them, so that no generation comes back.
use super_proxy.Base.{
  ℕ, zero, suc, ◌+◌, ◌≤◌, ◌<◌, String, true, false, ◌≡◌, refl, ◌⊎◌, none, some, List, [], ◌∷◌,
  arith, length, All, get_elem?, string_eq, nat_eq,
}
use super_proxy.Slots.{
  SlotController, SlotLease, u64_mod, try_acquire, release_lease, validate_lease,
}
use super_proxy.Slots.Leases.{
  Call, History, run, start, IsNamed, Inv, start-Inv, run-Inv, generation-get_elem?, Numbered, Held,
  issued-run,
}

-- The lease with the controller's generation is the one that `Held` speaks of.
current-Held :
    (sc : SlotController) (ls : List SlotLease) (i : ℕ) (lease : SlotLease)
    → Numbered ls
    → Held sc ls
    → get_elem? ls i ≡ some lease
    → lease.generation ≡ length ls
    → ((sc.owner ≡ "") × (sc.operation_id ≡ ""))
      ⊎ ((sc.owner ≡ lease.owner) × (sc.operation_id ≡ lease.operation_id))
current-Held sc [] i lease n h there same = cc
current-Held sc (l ∷ ls) zero lease n h there same = ground arith
current-Held sc (l ∷ ls) (suc i) lease n h there same =
    absurd (omega (arith, generation-get_elem? (l ∷ ls) (suc i) {l = lease} n there))

release_valid :
    (sc : SlotController) (lease : SlotLease)
    → validate_lease sc lease ≡ true
    → release_lease sc lease ≡ record sc { owner = ""; operation_id = "" }
unfolding validate_lease release_lease
release_valid sc lease valid = ground arith

acquire_free :
    (sc : SlotController) (owner op_id : String)
    → sc.generation + 1 < u64_mod
    → (try_acquire (record sc { owner = ""; operation_id = "" }) owner op_id).1
      ≡ some (record {
        slot_id = sc.slot_id;
        generation = sc.generation + 1;
        owner = owner;
        operation_id = op_id;
      })
unfolding try_acquire
acquire_free sc owner op_id room = ground arith

-- A history that begins with a new controller.
module _ (slot_id : ℕ) (cs : List Call) (named : All IsNamed cs) (short : length cs < u64_mod) where
  abbrev pub after : History
  after = run (start slot_id) cs

  after-Inv : Inv after
  unfolding start
  after-Inv = run-Inv (start slot_id) cs named (omega arith) (start-Inv slot_id)

  issued-after : length after.issued ≤ length cs
  unfolding start
  issued-after = omega (arith, issued-run (start slot_id) cs)

  -- Of all the leases that were ever granted on a slot only the latest can be valid, so no two
  -- different grants are valid at once.
  pub valid_is_latest :
      (i : ℕ) (lease : SlotLease)
      → get_elem? after.issued i ≡ some lease
      → validate_lease after.sc lease ≡ true
      → i ≡ 0
  unfolding validate_lease
  valid_is_latest i lease there valid =
      ground (arith, after-Inv, generation-get_elem? after.issued i {l = lease})

  -- While a lease is valid, nobody else gets the slot.
  pub valid_excludes :
      (i : ℕ) (lease : SlotLease) (owner op_id : String)
      → get_elem? after.issued i ≡ some lease
      → validate_lease after.sc lease ≡ true
      → try_acquire after.sc owner op_id ≡ (after.sc, none)
  unfolding validate_lease try_acquire
  valid_excludes i lease owner op_id there valid = ground (
    arith,
    after-Inv,
    generation-get_elem? after.issued i {l = lease},
    string_eq.beq_iff after.sc.owner lease.owner,
    string_eq.beq_iff after.sc.owner "",
  )

  -- A lease that is not valid any more, or was superseded, can be released again without effect: the
  -- controller keeps its state.
  pub stale_release :
      (i : ℕ) (lease : SlotLease)
      → get_elem? after.issued i ≡ some lease
      → validate_lease after.sc lease ≡ false
      → release_lease after.sc lease ≡ after.sc
  unfolding validate_lease release_lease
  stale_release i lease there invalid = ground (
    arith,
    after-Inv,
    λ (e : lease.generation ≡ length after.issued).
        current-Held after.sc after.issued i lease after-Inv.numbered after-Inv.held there e,
    string_eq.beq_iff after.sc.owner lease.owner,
    string_eq.beq_iff after.sc.operation_id lease.operation_id,
  )

  -- The holder of the valid lease can give it back, and the slot can then be acquired by anybody,
  -- under a generation that no lease had before.
  pub release_frees :
      (i j : ℕ) (lease older : SlotLease) (owner op_id : String)
      → get_elem? after.issued i ≡ some lease
      → validate_lease after.sc lease ≡ true
      → get_elem? after.issued j ≡ some older
      → length cs + 1 < u64_mod
      → (next : SlotLease) × ((try_acquire (release_lease after.sc lease) owner op_id).1
          ≡ some next)
        × (next.owner ≡ owner)
        × (next.operation_id ≡ op_id)
        × (older.generation < next.generation)
  release_frees i j lease older owner op_id there valid before room = (
    record {
      slot_id = after.sc.slot_id;
      generation = after.sc.generation + 1;
      owner = owner;
      operation_id = op_id;
    },
    rw (release_valid after.sc lease valid)
        (acquire_free after.sc owner op_id (omega (arith, after-Inv, issued-after))),
    refl,
    refl,
    ground (arith, after-Inv, generation-get_elem? after.issued j {l = older}),
  )
