-- ===== src/Tests/Data.antt =====
-- The data that the tests share.
use super_proxy.Base.{ℕ, String, true, false, some, none, [], ◌∷◌, Option, is_some}
use super_proxy.Base.Int.{pos}
use super_proxy.Models.{Node, Status, ReputationMetrics, NetworkClass}
use super_proxy.Fsm
use super_proxy.Slots.{SlotState, SlotController}
use super_proxy.Scheduler.State.{Scheduler, Tunnel, Env}

abbrev pub clean_reputation : ReputationMetrics
clean_reputation = record {
  status = "GOOD";
  is_blacklisted = false;
  fraud_score = pos 0;
  provider_name = "multi-provider";
  details = "";
}

abbrev pub residential : NetworkClass
residential = record {
  asn = "AS2516";
  isp = "KDDI";
  organization = "KDDI";
  network_type = "residential";
  is_vpn = false;
  is_proxy = false;
  is_tor = false;
  is_hosting = false;
}

abbrev pub node_at : String → Status → Node
node_at ip status = record {
  id = ip;
  ip = ip;
  observed_exit_ip = "";
  country = "JP";
  score = pos 0;
  status = status;
  fail_count = 0;
  last_error = "";
  last_failure_at = 0;
  reputation = clean_reputation;
  net_class = residential;
}

abbrev pub row_in : Status → Fsm.Row
row_in status = record { status = status; fail_count = 0; last_error = ""; last_failure_at = 0 }

abbrev pub stored_world : Fsm.World
stored_world = record {
  db = some (("203.0.113.1", row_in Status.active) ∷ ("203.0.113.2", row_in Status.standby) ∷ []);
  secrets = ("203.0.113.1", "c2VjcmV0") ∷ ("203.0.113.2", "b3RoZXI=") ∷ [];
}

-- Tunnel 1 serves, tunnel 2 drains or stands by.
abbrev pub some_tunnels : ℕ → Tunnel
some_tunnels ℕ.zero = record {
  slot_index = 0;
  interface = "tun0";
  node = node_at "203.0.113.9" Status.active;
  state = SlotState.failed;
  draining_started_at = 0;
  done = true;
}
some_tunnels (ℕ.suc ℕ.zero) = record {
  slot_index = 0;
  interface = "tun11";
  node = node_at "203.0.113.1" Status.active;
  state = SlotState.active;
  draining_started_at = 0;
  done = false;
}
some_tunnels other = record {
  slot_index = 12;
  interface = "tun12";
  node = node_at "203.0.113.2" Status.standby;
  state = SlotState.active;
  draining_started_at = 5;
  done = false;
}

abbrev pub controller_of : ℕ → Option ℕ → SlotController
controller_of slot tunnel = record {
  slot_id = slot;
  generation = 0;
  owner = "";
  operation_id = "";
  state = SlotState.offline;
  active_tunnel = tunnel;
  draining_tunnel = none;
  draining_table_id = 0;
  outbound_active = is_some tunnel;
}

-- Slot 0 is served by tunnel 1, slot 1 is empty, and tunnel 2 stands by.
abbrev pub serving : Scheduler
serving = record {
  max_active = 2;
  max_standby = 1;
  active_slots = (0, 1) ∷ [];
  draining_slots = [];
  draining_table_ids = [];
  draining_tun_ips = [];
  standby_nodes = 2 ∷ [];
  slots = (0, controller_of 0 (some 1)) ∷ (1, controller_of 1 none) ∷ [];
  manual_override = [];
  standby_slot_count = 2;
  tunnels = some_tunnels;
  world = stored_world;
  effects = [];
}

-- Everything outside works.
abbrev pub all_well : Env
all_well = record {
  now = 100;
  has_xray = true;
  xray_drains = λ slot. true;
  xray_activates = λ slot. true;
  routes_slot = λ slot. true;
  routes_draining = λ slot. true;
  interface_ip = λ name. "10.8.0.2";
  healthy = λ slot. true;
  connections = λ slot. some 0;
  noted = λ slot. true;
  saved = λ slot. true;
}
