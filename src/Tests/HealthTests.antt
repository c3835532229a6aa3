-- ===== src/Tests/HealthTests.antt =====
-- internal/health/layered.go at a concrete input: the first provider fails, the second answers.
use super_proxy.Base.{true, false, none, [], ◌∷◌, ◌⊎◌}
use super_proxy.Health.{Probe, no_response, responds, verify_tunnel}
use super_proxy.Health.Verified.{IsProven, IsUnhealthy, verify_tunnel-IsProven}
use super_proxy.Tests.PolicyTests.{plain_text}

abbrev pub second_answers : Probe
second_answers = record {
  text = plain_text;
  link_up = true;
  route_found = true;
  providers =
      record { is_json = true; response = no_response; duration = 0 }
      ∷ record { is_json = false; response = responds 200 "203.0.113.1"; duration = 80 }
      ∷ [];
  json_ip = λ s. none;
}

verify_tunnel-IsProven_example :
    IsProven second_answers "203.0.113.1" (verify_tunnel second_answers "203.0.113.1")
    ⊎ IsUnhealthy (verify_tunnel second_answers "203.0.113.1")
verify_tunnel-IsProven_example = verify_tunnel-IsProven second_answers "203.0.113.1"
