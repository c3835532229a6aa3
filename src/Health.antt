-- ===== src/Health.antt =====
-- internal/health/layered.go: whether a tunnel may serve. The commands and the HTTP providers answer
-- through `Probe`; what `net.ParseIP` finds is in `Text`.
pub mod Verified
use super_proxy.Base.{
  ℕ, ltb, leb, String, Bool, true, false, ◌&&◌, ◌||◌, not, Option, none, some, List, [], ◌∷◌, ◌==◌,
  nat_eq, string_eq, if◌then◌else◌,
}
use super_proxy.Diversity.{Text, Ip, v4, v6}

-- A provider's answer: no response or an unreadable one, or its status and body.
pub data Response : Type 0 where
  no_response : Response
  responds : ℕ → String → Response

pub record IpProvider : Type 0 where
  pub is_json : Bool
  pub response : Response
  pub duration : ℕ

-- The outside of one check: `ip link`, `ip route` and that its output names the interface, the
-- providers, and the field "ip" of a JSON text.
pub record Probe : Type 0 where
  pub text : Text
  pub link_up : Bool
  pub route_found : Bool
  pub providers : List IpProvider
  pub json_ip : String → Option String

pub data VerifyError : Type 0 where
  link_down no_route no_exit exit_mismatch : VerifyError

-- VerifyResult; PacketLoss, which nothing sets, is left out.
pub record VerifyResult : Type 0 where
  pub tunnel_healthy : Bool
  pub observed_exit_ip : String
  pub expected_exit_ip : String
  pub exit_ip_match : Bool
  pub dns_ok : Bool
  pub tcp_connectivity : Bool
  pub https_connectivity : Bool
  pub latency : ℕ
  pub error : Option VerifyError

-- IsGlobalUnicast of an IPv4 address
abbrev pub is_global_unicast : ℕ → ℕ → ℕ → ℕ → Bool
is_global_unicast a b c d =
    not ((a == 255) && ((b == 255) && ((c == 255) && (d == 255))))
    && (not ((a == 0) && ((b == 0) && ((c == 0) && (d == 0))))
        && (not (a == 127) && (not (leb 224 a && ltb a 240) && not ((a == 169) && (b == 254)))))

-- IsPrivate of an IPv4 address
abbrev pub is_private : ℕ → ℕ → Bool
is_private a b = (a == 10) || (((a == 172) && (leb 16 b && ltb b 32)) || ((a == 192) && (b == 168)))

unfoldable pub is_exit_address : Option Ip → Bool
is_exit_address none = false
is_exit_address (some (v4 a b c d)) = is_global_unicast a b c d && not (is_private a b)
is_exit_address (some (v6 a)) = false

abbrev pub failed_result : String → VerifyError → VerifyResult
failed_result expected err = record {
  tunnel_healthy = false;
  observed_exit_ip = "";
  expected_exit_ip = expected;
  exit_ip_match = false;
  dns_ok = false;
  tcp_connectivity = false;
  https_connectivity = false;
  latency = 0;
  error = some err;
}

unfoldable pub or_later : Option (String × ℕ) → Option (String × ℕ) → Option (String × ℕ)
or_later none later = later
or_later (some shown) later = some shown

module _ (p : Probe) where
  unfoldable pub candidate_ip : Bool → String → String
  candidate_ip false body = p.text.trim_space body
  candidate_ip true body = elim (p.json_ip body) [ none ↦ "" | some ip ↦ p.text.trim_space ip ]

  -- The exit address that one provider shows.
  unfoldable pub exit_shown : IpProvider → Response → Option (String × ℕ)
  unfolding candidate_ip is_exit_address
  exit_shown provider no_response = none
  exit_shown provider (responds status body) =
      let ip = candidate_ip provider.is_json body in
      if (leb 200 status && ltb status 300) && is_exit_address (p.text.parse_ip ip)
      then some (ip, provider.duration)
      else none

  -- The loop over the providers: the first that shows one.
  unfoldable pub first_exit : List IpProvider → Option (String × ℕ)
  unfolding exit_shown or_later
  first_exit [] = none
  first_exit (provider ∷ rest) =
      let later = first_exit rest in or_later (exit_shown provider provider.response) later

  unfoldable pub compare_exit : String → Option (String × ℕ) → VerifyResult
  compare_exit expected none = failed_result expected no_exit
  compare_exit expected (some (ip, duration)) =
      let reached = record (failed_result expected no_exit) {
        dns_ok = true;
        tcp_connectivity = true;
        https_connectivity = true;
        latency = duration;
      } in
      if ip == ""
      then reached
      else if (expected == "") || (ip == expected)
      then record reached {
        observed_exit_ip = ip;
        exit_ip_match = true;
        tunnel_healthy = true;
        error = none;
      }
      else record reached { observed_exit_ip = ip; error = some exit_mismatch }

  -- VerifyTunnel; `expected` is the node's ObservedExitIP.
  unfoldable pub verify_tunnel : String → VerifyResult
  unfolding compare_exit first_exit
  verify_tunnel expected =
      if not p.link_up
      then failed_result expected link_down
      else if not p.route_found
      then failed_result expected no_route
      else compare_exit expected (first_exit p.providers)
