-- ===== src/Xray/Lifecycle.antt =====
-- internal/xray/supervisor.go: starting, watching, restarting and stopping the Xray process. An
-- operation holds the supervisor's mutex in sections; what other goroutines do between two sections is a
-- function of `Outside`, any function. A child and its channel processDone have one number.
use super_proxy.Base.{
  ℕ, suc, String, Bool, true, false, ◌&&◌, ◌||◌, not, Option, none, some, List, ◌==◌, nat_eq,
  string_eq, if◌then◌else◌, is_some, Eq, ◌≡◌, ◌↔◌, ite, arith,
}
use super_proxy.Xray.{
  Supervisor, SupervisorState, stopped, starting, running, restarting, PublicEndpoint,
  SupervisorState-discrete,
}
use super_proxy.Xray.Endpoint.{Net, set_runtime_vless_endpoint}

abbrev pub state_beq : SupervisorState → SupervisorState → Bool
state_beq a b = ite (SupervisorState-discrete a b) true false

pub state_beq_iff : (a b : SupervisorState) → (state_beq a b ≡ true) ↔ (a ≡ b)
state_beq_iff a b = ground arith

instance abbrev pub state_eq : Eq SupervisorState
state_eq = record { beq = state_beq; beq_iff = state_beq_iff }

-- The supervisor, activeRuntimeEndpoint, the channels that are closed, and the number of the next child.
pub record Runtime : Type 0 where
  pub sup : Supervisor
  pub published : Option PublicEndpoint
  pub closed : List ℕ
  pub next : ℕ

-- What one operation meets outside: the file's VLESS inbound, the answers of `xray -test`, of the start
-- and of the listeners, XRAY_VLESS_ADDRESS, whether the context ends during the backoff, and the other
-- goroutines while the old child ends and while the new one gets ready.
pub record Outside : Type 0 where
  pub net : Net
  pub inspected : Bool × Bool × Option PublicEndpoint
  pub validates : Bool
  pub launches : Bool
  pub ready : Bool
  pub env_address : String
  pub cancelled : Bool
  pub while_ending : Runtime → Runtime
  pub while_waiting : Runtime → Runtime

pub data LifecycleError : Type 0 where
  already_running is_stopped_error already_restarting config_invalid : LifecycleError
  stopped_meanwhile launch_failed not_ready not_running : LifecycleError

abbrev pub Ended : Type 0
Ended = Runtime × Option LifecycleError

-- ClearRuntimeVlessEndpoint
unfoldable pub clear_endpoint : Runtime → Runtime
clear_endpoint w = record w { published = none }

unfoldable pub set_state : SupervisorState → Runtime → Runtime
set_state state w = record w { sup = record w.sup { state = state } }

-- The address that the endpoint is published under.
unfoldable pub resolve_address : String → String → String → String
resolve_address public_address env_address address =
    if (address == "") || (address == "0.0.0.0")
    then (if not (public_address == "")
        then public_address
        else if not (env_address == "")
        then env_address
        else address)
    else address

-- startProcessLocked where the command starts.
unfoldable pub start_process : Runtime → Runtime
start_process w = record w { sup = record w.sup { process = some w.next }; next = suc w.next }

-- A restart is counted, and the crashes before it forgotten.
unfoldable pub count_restart : Runtime → Runtime
count_restart w = record w {
  sup = record w.sup { consecutive_crashes = 0; restarts = suc w.sup.restarts };
}

-- A failure that leaves the supervisor STOPPED.
unfoldable pub halt : LifecycleError → Runtime → Ended
unfolding clear_endpoint set_state
halt err w = (clear_endpoint (set_state stopped w), some err)

module _ (o : Outside) where
  unfoldable pub register : PublicEndpoint → Runtime → Runtime
  register ep w =
      if not (ep.address == "") && not (ep.address == "0.0.0.0")
      then record w { published = (set_runtime_vless_endpoint o.net ep w.published).0 }
      else w

  unfoldable pub resolved : Runtime → PublicEndpoint → PublicEndpoint
  unfolding resolve_address
  resolved w ep = record ep {
    address = resolve_address w.sup.public_address o.env_address ep.address;
  }

  unfoldable pub publish_endpoint : Bool → Option PublicEndpoint → Runtime → Runtime
  unfolding register resolved
  publish_endpoint false ep w = w
  publish_endpoint true none w = w
  publish_endpoint true (some ep) w = register (resolved w ep) w

  -- The end of a start, a restart and a recovery: RUNNING, and the endpoint published.
  unfoldable pub come_up : Runtime → Runtime
  unfolding publish_endpoint set_state
  come_up w = publish_endpoint w.sup.vless_enabled w.sup.vless_endpoint (set_state running w)

  -- Stop; the children end, and the goroutines that it waits for.
  unfoldable pub stop_supervisor : Runtime → Runtime
  unfolding clear_endpoint
  stop_supervisor w =
      if w.sup.is_stopped
      then w
      else clear_endpoint (
          o.while_ending (
            clear_endpoint
              (record w { sup = record w.sup { is_stopped = true; state = stopped } })))

  -- The file is read again where VLESS is not known yet.
  unfoldable pub inspect : Supervisor → Supervisor
  inspect s =
      if not s.vless_enabled || not (is_some s.vless_endpoint)
      then record s {
        vless_enabled = o.inspected.0;
        vless_only443 = o.inspected.1;
        vless_endpoint = o.inspected.2;
      }
      else s

  -- Start, once the process is there.
  unfoldable pub await_start : Runtime → Ended
  unfolding come_up stop_supervisor clear_endpoint
  await_start w =
      if o.ready
      then (come_up (o.while_waiting w), none)
      else (clear_endpoint (stop_supervisor (o.while_waiting w)), some not_ready)

  unfoldable pub launch : Runtime → Ended
  unfolding halt start_process await_start
  launch w =
      if not o.validates
      then halt config_invalid w
      else if not o.launches
      then halt launch_failed w
      else await_start (start_process w)

  unfoldable pub started : Runtime → Runtime
  unfolding inspect clear_endpoint
  started w =
      clear_endpoint
        (record w { sup = inspect (record w.sup { state = starting; is_stopped = false }) })

  -- Start
  unfoldable pub start : Runtime → Ended
  unfolding launch started
  start w =
      if (w.sup.state == running) || (w.sup.state == starting)
      then (w, some already_running)
      else launch (started w)

  -- Restart from the wait for the listeners on.
  unfoldable pub await_restart : Runtime → Ended
  unfolding come_up halt count_restart
  await_restart w =
      let waited = o.while_waiting w in
      if o.ready then (come_up (count_restart waited), none) else halt not_ready waited

  unfoldable pub relaunch : Runtime → Ended
  unfolding halt start_process await_restart clear_endpoint
  relaunch w =
      if not o.validates
      then halt config_invalid w
      else if w.sup.is_stopped
      then (clear_endpoint w, some stopped_meanwhile)
      else if not o.launches
      then halt launch_failed w
      else await_restart (start_process w)

  -- Restart
  unfoldable pub restart : Runtime → Ended
  unfolding relaunch clear_endpoint set_state
  restart w =
      let w0 = clear_endpoint w in
      if w.sup.is_stopped
      then (w0, some is_stopped_error)
      else if w.sup.state == restarting
      then (w0, some already_restarting)
      else relaunch (clear_endpoint (o.while_ending (set_state restarting w0)))

  -- CheckHealth; `ready` is whether each listener takes a connection.
  unfoldable pub check_health : Runtime → Ended
  unfolding clear_endpoint
  check_health w =
      if w.sup.is_stopped || not (w.sup.state == running)
      then (clear_endpoint w, some not_running)
      else if o.ready
      then (w, none)
      else (clear_endpoint w, some not_ready)

  -- SetPublicAddress, and whether it returns no error.
  unfoldable pub address_set : String → Option PublicEndpoint → Runtime → Runtime × Bool
  address_set addr none w = (record w { sup = record w.sup { public_address = addr } }, true)
  address_set addr (some ep) w =
      let moved = record ep { address = addr } in
      let s = record w.sup { public_address = addr; vless_endpoint = some moved } in
      if (w.sup.state == running) && (not (addr == "") && not (addr == "0.0.0.0"))
      then (let r = set_runtime_vless_endpoint o.net moved w.published in
          (record w { sup = s; published = r.0 }, r.1))
      else (record w { sup = s }, true)

  unfoldable pub set_public_address : String → Runtime → Runtime × Bool
  unfolding address_set
  set_public_address addr w = address_set addr w.sup.vless_endpoint w

-- GetPublicEndpoint
unfoldable pub get_public_endpoint : Supervisor → Option PublicEndpoint
get_public_endpoint s = if s.vless_enabled && (s.state == running) then s.vless_endpoint else none
