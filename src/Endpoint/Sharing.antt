-- ===== src/Endpoint/Sharing.antt =====
-- Tunnels that share an endpoint keep its route until the last of them lets it go.
use super_proxy.Base.{
  ℕ, ◌+◌, ◌-◌, ltb, String, Bool, true, false, ◌&&◌, ◌||◌, not, List, [], ◌∷◌, if◌then◌else◌, ◌==◌,
  string_eq, is_some, ◌≡◌, refl, arith,
}
use super_proxy.Base.Assoc
use super_proxy.Diversity.{Text}
use super_proxy.Endpoint.{
  Ensured, refused, unverified, ensured, Removal, EndpointManager, Call, acquires, releases,
  get_ref_count, acquire_endpoint, release_endpoint, call, run,
}

abbrev pub is_address : Text → String → Bool
is_address text ip = not (ip == "") && is_some (text.parse_ip ip)

abbrev pub is_ensured : Ensured → Bool
is_ensured refused = false
is_ensured unverified = false
is_ensured ensured = true

-- How many hold an address: an acquisition counts when the address is held already or its route could
-- be made and verified, and a release gives one up.
unfoldable pub holders : Text → String → List Call → ℕ
holders text ip [] = 0
holders text ip (acquires j result ∷ earlier) =
    let held = holders text ip earlier in
    if (j == ip) && is_address text j && (ltb 0 held || is_ensured result) then held + 1 else held
holders text ip (releases j removal ∷ earlier) =
    let held = holders text ip earlier in if (j == ip) && is_address text j then held - 1 else held

-- A call leaves no route behind: no read-back is refused, and a route that is to be deleted is.
abbrev pub IsClean : Call → Type 0
IsClean (acquires j refused) = Unit
IsClean (acquires j unverified) = ⊥
IsClean (acquires j ensured) = Unit
IsClean (releases j removal) = removal.deletes ≡ true

module _ (text : Text) (ip : String) where
  acquired_count :
      (j : String) (result : Ensured) (m : EndpointManager)
      → let held = get_ref_count m ip in
        get_ref_count (acquire_endpoint text result m j).0 ip ≡ (
          if (j == ip) && is_address text j && (ltb 0 held || is_ensured result)
          then held + 1
          else held)
  unfolding acquire_endpoint get_ref_count
  acquired_count j result m =
      let count = get_ref_count m j in
      ground (
        arith,
        string_eq.beq_iff j ip,
        Assoc.lookup-insert j ip (count + 1) m.ref_counts,
        Assoc.lookup-insert j ip 1 m.ref_counts,
      )

  released_count :
      (j : String) (removal : Removal) (m : EndpointManager)
      → let held = get_ref_count m ip in
        get_ref_count (release_endpoint text removal m j).0 ip
        ≡ (if (j == ip) && is_address text j then held - 1 else held)
  unfolding release_endpoint get_ref_count
  released_count j removal m =
      let count = get_ref_count m j in
      ground (
        arith,
        string_eq.beq_iff j ip,
        Assoc.lookup-insert j ip (count - 1) m.ref_counts,
        Assoc.lookup-delete j ip m.ref_counts,
      )

  -- After any calls, the count of an address is the number of those that hold it.
  pub count_is_holders :
      (calls : List Call) → get_ref_count (run text calls) ip ≡ holders text ip calls
  unfolding run holders call Assoc.lookup
  count_is_holders [] = refl
  count_is_holders (acquires j result ∷ earlier) =
      rw (acquired_count j result (run text earlier), count_is_holders earlier) refl
  count_is_holders (releases j removal ∷ earlier) =
      rw (released_count j removal (run text earlier), count_is_holders earlier) refl

  -- Somebody counts the address, so its route is there.
  abbrev HasRoute : EndpointManager → Type 0
  HasRoute m = ltb 0 (get_ref_count m ip) ≡ true → m.has_route ip ≡ true

  -- The route is there exactly while somebody counts the address.
  abbrev IsExact : EndpointManager → Type 0
  IsExact m = m.has_route ip ≡ ltb 0 (get_ref_count m ip)
