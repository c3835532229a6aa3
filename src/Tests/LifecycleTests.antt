-- ===== src/Tests/LifecycleTests.antt =====
-- The life cycle of the Xray process, internal/xray/supervisor.go, at concrete inputs.
use super_proxy.Base.{true, false, none, some, [], ◌∷◌, ◌≡◌, refl, inl, arith, ◌==◌, string_eq}
use super_proxy.Base.Int.{pos}
use super_proxy.Xray.{PublicEndpoint}
use super_proxy.Xray.Endpoint.{Net, validate, validate_public_address}
use super_proxy.Xray.Lifecycle.{
  Runtime, Outside, start, restart, stop_supervisor, check_health, set_public_address,
}
use super_proxy.Xray.Monitor.{continues, panics, monitor_round}
use super_proxy.Xray.Crashes.{failed_recovery_panics}
use super_proxy.Xray.Published.{IsPublic, IsSafe, operations_publish_public}
use super_proxy.Tests.XrayTests.{two_active}

abbrev pub open_net : Net
open_net = record {
  trim_space = λ s. s;
  trim = λ s cut. s;
  contains = λ s part. false;
  count = λ s part. 0;
  equal_fold = λ s t. s == t;
  byte_length = λ s. 11;
  parse_ip = λ s. none;
  is_hostname = λ s. true;
}

abbrev pub example_endpoint : PublicEndpoint
example_endpoint = record {
  address = "example.org";
  port = pos 443;
  network = "tcp";
  tls = true;
  protocol = "vless";
}

abbrev pub serving_runtime : Runtime
serving_runtime = record {
  sup = record two_active { process = some 4; vless_endpoint = some example_endpoint };
  published = some example_endpoint;
  closed = 3 ∷ 2 ∷ [];
  next = 5;
}

abbrev pub quiet : Outside
quiet = record {
  net = open_net;
  inspected = (true, true, some example_endpoint);
  validates = true;
  launches = true;
  ready = true;
  env_address = "";
  cancelled = false;
  while_ending = λ w. w;
  while_waiting = λ w. w;
}

abbrev pub broken_config : Outside
broken_config = record quiet { validates = false }

operations_publish_public_example :
    IsSafe quiet ((start quiet serving_runtime).0)
    × IsSafe quiet ((restart quiet serving_runtime).0)
    × IsSafe quiet (stop_supervisor quiet serving_runtime)
    × IsSafe quiet ((check_health quiet serving_runtime).0)
    × IsSafe quiet ((set_public_address quiet "example.com" serving_runtime).0)
    × IsSafe quiet ((monitor_round quiet serving_runtime).0)
unfolding validate IsPublic validate_public_address
operations_publish_public_example =
    operations_publish_public quiet (λ v h. h) (λ v h. h) "example.com" serving_runtime refl

failed_recovery_panics_example :
    ((monitor_round broken_config serving_runtime).1 ≡ continues)
    × ((monitor_round quiet ((monitor_round broken_config serving_runtime).0)).1 ≡ panics)
failed_recovery_panics_example =
    failed_recovery_panics broken_config quiet serving_runtime 4 refl refl refl (ground arith) refl
      refl (inl refl)
