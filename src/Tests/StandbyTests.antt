-- ===== src/Tests/StandbyTests.antt =====
-- maintainStandbyPool of internal/scheduler/scheduler.go at a concrete input.
use super_proxy.Base.{true, false, some, [], refl}
use super_proxy.Base.Int.{pos}
use super_proxy.Scheduler.State.{Scheduler}
use super_proxy.Standby.Qualify.{Selection, Answers, maintain_standby_pool}
use super_proxy.Standby.Safety.{IsSettled, maintain_standby_pool_lem}
use super_proxy.Tests.Data.{serving}
use super_proxy.Tests.PolicyTests.{plain_text, clean_engine, candidate}

abbrev pub chosen : Selection
chosen = record { node = candidate; is_fallback_node = false; quarantined_endpoint = false }

abbrev pub all_passes : Answers
all_passes = record {
  now = 100;
  text = plain_text;
  engine = some clean_engine;
  selection = some chosen;
  scoring = some (λ node is_primary ip. some (pos 80));
  fresh = 3;
  starts = some "tun3";
  exit_ip = some "198.51.100.7";
  benchmark = some true;
  noted = true;
  saved = λ status. true;
  while_verifying = λ s. s;
  while_measuring = λ s. s;
}

-- Slot 0 is served and nothing stands by.
abbrev no_standby : Scheduler
no_standby = record serving { standby_nodes = [] }

maintain_standby_pool_lem_example :
    IsSettled all_passes no_standby (maintain_standby_pool all_passes no_standby)
maintain_standby_pool_lem_example =
    maintain_standby_pool_lem all_passes no_standby (λ s. (refl, refl)) (λ s. (refl, refl))
