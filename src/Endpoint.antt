-- ===== src/Endpoint.antt =====
-- internal/routing/endpoint.go: reference counts of the host routes that keep the tunnels' endpoints
-- off the tunnels. Both operations hold the manager's mutex, so a history is a list of calls. The
-- commands to `ip` are outside: how they end is an argument, and `has_route` is the host's table of
-- these routes as the commands leave it. A count is a Go int, far from its bound.
pub mod Sharing
use super_proxy.Base.{
  ℕ, ◌+◌, ◌-◌, ltb, String, Bool, true, false, ◌&&◌, ◌||◌, not, Option, none, some, List, [], ◌∷◌,
  if◌then◌else◌, ◌==◌, string_eq, is_some,
}
use super_proxy.Base.Assoc
use super_proxy.Diversity.{Text}

-- How EnsureEndpointBypassRoute ends: without a route of its own, with the route in place and the
-- read-back refused, or with the route in place.
pub data Ensured : Type 0 where
  refused unverified ensured : Ensured

-- How the removal of a route ends: whether the gateway is found, and whether `ip route del` succeeds.
pub record Removal : Type 0 where
  pub finds_gateway : Bool
  pub deletes : Bool

pub record EndpointManager : Type 0 where
  pub ref_counts : List (String × ℕ)
  pub has_route : String → Bool

pub data EndpointError : Type 0 where
  empty_ip invalid_ip route_failed : EndpointError

-- GetEndpointManager makes it, on a host with no such routes.
abbrev pub new_endpoint_manager : EndpointManager
new_endpoint_manager = record { ref_counts = []; has_route = λ ip. false }

abbrev pub set_route : String → Bool → (String → Bool) → String → Bool
set_route ip on routes j = if ip == j then on else routes j

-- GetRefCount
unfoldable pub get_ref_count : EndpointManager → String → ℕ
get_ref_count m ip = elim (Assoc.lookup ip m.ref_counts) [ none ↦ 0 | some n ↦ n ]

-- AcquireEndpoint
unfoldable pub acquire_endpoint :
    Text → Ensured → EndpointManager → String → EndpointManager × Option EndpointError
unfolding get_ref_count
acquire_endpoint text result m ip =
    let count = get_ref_count m ip in
    if ip == ""
    then (m, some empty_ip)
    else if not (is_some (text.parse_ip ip))
    then (m, some invalid_ip)
    else if ltb 0 count
    then (record m { ref_counts = Assoc.insert ip (count + 1) m.ref_counts }, none)
    else elim result [
      | refused ↦ (m, some route_failed)
      | unverified ↦ (record m { has_route = set_route ip true m.has_route }, some route_failed)
      | ensured ↦ (
        record {
          ref_counts = Assoc.insert ip 1 m.ref_counts;
          has_route = set_route ip true m.has_route;
        },
        none,
      )
    ]

-- ReleaseEndpoint; a failure to delete the route is only logged, unless the gateway was not found.
unfoldable pub release_endpoint :
    Text → Removal → EndpointManager → String → EndpointManager × Option EndpointError
unfolding get_ref_count
release_endpoint text removal m ip =
    let count = get_ref_count m ip in
    if ip == ""
    then (m, none)
    else if not (is_some (text.parse_ip ip))
    then (m, some invalid_ip)
    else if not (ltb 0 count)
    then (record m { ref_counts = Assoc.delete ip m.ref_counts }, none)
    else if ltb 1 count
    then (record m { ref_counts = Assoc.insert ip (count - 1) m.ref_counts }, none)
    else (
      record {
        ref_counts = Assoc.delete ip m.ref_counts;
        has_route = if removal.deletes then set_route ip false m.has_route else m.has_route;
      },
      if removal.finds_gateway || removal.deletes then none else some route_failed,
    )

pub data Call : Type 0 where
  acquires : String → Ensured → Call
  releases : String → Removal → Call

unfoldable pub call : Text → EndpointManager → Call → EndpointManager
unfolding acquire_endpoint release_endpoint
call text m (acquires ip result) = (acquire_endpoint text result m ip).0
call text m (releases ip removal) = (release_endpoint text removal m ip).0

-- The manager after some calls, the latest first.
unfoldable pub run : Text → List Call → EndpointManager
unfolding call
run text [] = new_endpoint_manager
run text (c ∷ earlier) = call text (run text earlier) c
