-- ===== src/Tests/SlotTests.antt =====
-- internal/scheduler/slot_controller.go at concrete inputs.
use super_proxy.Base.{
  ℕ, suc, ◌<◌, String, ◌≡◌, ◌≢◌, refl, none, List, [], ◌∷◌, arith, string_eq, All,
}
use super_proxy.Slots.{SlotLease, new_slot_controller, try_acquire, release_lease, validate_lease}
use super_proxy.Slots.Leases.{Call, acquires, releases, run, start, IsNamed}
use super_proxy.Slots.Exclusion.{after, valid_excludes}

-- A manual switch gets slot 1, gives it back twice, and a second one gets it.
abbrev calls : List Call
calls =
    acquires "manual-switch" "op-1"
    ∷ releases 0
    ∷ releases 0
    ∷ acquires "manual-switch" "op-2"
    ∷ acquires "manual-switch" "op-3"
    ∷ []

named : ◌≢◌ {A = String} "manual-switch" ""
named e = cc

calls-IsNamed : All IsNamed calls
calls-IsNamed = (named, (tt, (tt, (named, (named, tt)))))

short : suc 4 < 18446744073709551616
short = omega arith

abbrev lease_of : ℕ → String → SlotLease
lease_of generation op_id = record {
  slot_id = 1;
  generation = generation;
  owner = "manual-switch";
  operation_id = op_id;
}

valid_excludes_example :
    try_acquire (after 1 calls calls-IsNamed short).sc "fill" "op-4"
    ≡ ((after 1 calls calls-IsNamed short).sc, none)
unfolding run start new_slot_controller try_acquire release_lease validate_lease
valid_excludes_example =
    valid_excludes 1 calls calls-IsNamed short 0 (lease_of 2 "op-2") "fill" "op-4" refl refl
