-- ===== src/Xray/Published.antt =====
-- Which endpoints `Lifecycle` and `Monitor` publish.
use super_proxy.Base.{
  ℕ, String, Bool, true, false, not, ◌&&◌, ◌||◌, Option, none, some, ◌∷◌, ◌==◌, string_eq, nat_eq,
  contains, ◌≡◌, Bool-cases, inl, inr, if_either,
}
use super_proxy.Xray.{PublicEndpoint, starting, running, restarting}
use super_proxy.Xray.Endpoint.{Net, with_defaults, validate, set_runtime_vless_endpoint}
use super_proxy.Xray.Lifecycle.{
  Runtime, Outside, Ended, clear_endpoint, set_state, register, resolved, publish_endpoint, come_up,
  start_process, stop_supervisor, halt, await_start, launch, started, start, count_restart,
  await_restart, relaunch, restart, check_health, address_set, set_public_address, state_eq,
}
use super_proxy.Xray.Monitor.{
  Round, recover, count_crash, crash_exit, running_exit, handle_exit, await_child, monitor_round,
}

-- An endpoint passes the checks: a public address, port 443, TCP, VLESS and TLS.
unfoldable pub IsPublic : Net → Option PublicEndpoint → Type 0
IsPublic net none = Unit
IsPublic net (some ep) = validate net ep ≡ true

set_runtime-IsPublic :
    (net : Net) (ep : PublicEndpoint) (active : Option PublicEndpoint)
    → IsPublic net active
    → IsPublic net ((set_runtime_vless_endpoint net ep active).0)
unfolding set_runtime_vless_endpoint IsPublic
set_runtime-IsPublic net ep active h = elim (Bool-cases (validate net (with_defaults ep))) [
  | inl p ↦ rw p p
  | inr p ↦ rw p h
]

module _ (o : Outside) where
  abbrev pub IsSafe : Runtime → Type 0
  IsSafe w = IsPublic o.net w.published

  module _ (ends : (v : Runtime) → IsSafe v → IsSafe (o.while_ending v))
      (waits : (v : Runtime) → IsSafe v → IsSafe (o.while_waiting v)) where
    register-IsSafe : (ep : PublicEndpoint) (w : Runtime) → IsSafe w → IsSafe (register o ep w)
    unfolding register
    register-IsSafe ep w h =
        if_either IsSafe (not (ep.address == "") && not (ep.address == "0.0.0.0"))
          (set_runtime-IsPublic o.net ep w.published h) h

    publish_endpoint-IsSafe :
        (on : Bool) (ep : Option PublicEndpoint) (w : Runtime)
        → IsSafe w
        → IsSafe (publish_endpoint o on ep w)
    unfolding publish_endpoint
    publish_endpoint-IsSafe false ep w h = h
    publish_endpoint-IsSafe true none w h = h
    publish_endpoint-IsSafe true (some ep) w h = register-IsSafe (resolved o w ep) w h

    come_up-IsSafe : (w : Runtime) → IsSafe w → IsSafe (come_up o w)
    unfolding come_up set_state
    come_up-IsSafe w h =
        publish_endpoint-IsSafe w.sup.vless_enabled w.sup.vless_endpoint (set_state running w) h

    await_start-IsSafe : (w : Runtime) → IsSafe w → IsSafe ((await_start o w).0)
    unfolding await_start clear_endpoint IsPublic
    await_start-IsSafe w h =
        if_either (λ (r : Ended). IsSafe r.0) o.ready
          (come_up-IsSafe (o.while_waiting w) (waits w h)) tt

    launch-IsSafe : (w : Runtime) → IsSafe w → IsSafe ((launch o w).0)
    unfolding launch start_process halt clear_endpoint IsPublic
    launch-IsSafe w h =
        if_either (λ (r : Ended). IsSafe r.0) (not o.validates) tt
          (if_either (λ (r : Ended). IsSafe r.0) (not o.launches) tt
            (await_start-IsSafe (start_process w) h))

    start-IsSafe : (w : Runtime) → IsSafe w → IsSafe ((start o w).0)
    unfolding start started clear_endpoint IsPublic
    start-IsSafe w h =
        if_either (λ (r : Ended). IsSafe r.0)
          ((w.sup.state == running) || (w.sup.state == starting)) h (launch-IsSafe (started o w) tt)

    await_restart-IsSafe : (w : Runtime) → IsSafe w → IsSafe ((await_restart o w).0)
    unfolding await_restart count_restart halt clear_endpoint IsPublic
    await_restart-IsSafe w h =
        if_either (λ (r : Ended). IsSafe r.0) o.ready
          (come_up-IsSafe (count_restart (o.while_waiting w)) (waits w h)) tt

    relaunch-IsSafe : (w : Runtime) → IsSafe w → IsSafe ((relaunch o w).0)
    unfolding relaunch start_process halt clear_endpoint IsPublic
    relaunch-IsSafe w h =
        if_either (λ (r : Ended). IsSafe r.0) (not o.validates) tt
          (if_either (λ (r : Ended). IsSafe r.0) w.sup.is_stopped tt
            (if_either (λ (r : Ended). IsSafe r.0) (not o.launches) tt
              (await_restart-IsSafe (start_process w) h)))

    restart-IsSafe : (w : Runtime) → IsSafe w → IsSafe ((restart o w).0)
    unfolding restart clear_endpoint IsPublic set_state
    restart-IsSafe w h =
        if_either (λ (r : Ended). IsSafe r.0) w.sup.is_stopped tt
          (if_either (λ (r : Ended). IsSafe r.0) (w.sup.state == restarting) tt
            (relaunch-IsSafe
              (clear_endpoint (o.while_ending (set_state restarting (clear_endpoint w)))) tt))

    check_health-IsSafe : (w : Runtime) → IsSafe w → IsSafe ((check_health o w).0)
    unfolding check_health clear_endpoint IsPublic
    check_health-IsSafe w h =
        if_either (λ (r : Ended). IsSafe r.0) (w.sup.is_stopped || not (w.sup.state == running)) tt
          (if_either (λ (r : Ended). IsSafe r.0) o.ready h tt)

    address_set-IsSafe :
        (addr : String) (ep : Option PublicEndpoint) (w : Runtime)
        → IsSafe w
        → IsSafe ((address_set o addr ep w).0)
    unfolding address_set
    address_set-IsSafe addr none w h = h
    address_set-IsSafe addr (some ep) w h =
        if_either (λ (r : Runtime × Bool). IsSafe r.0)
          ((w.sup.state == running) && (not (addr == "") && not (addr == "0.0.0.0")))
          (set_runtime-IsPublic o.net (record ep { address = addr }) w.published h) h

    stop_supervisor-IsSafe : (w : Runtime) → IsSafe w → IsSafe (stop_supervisor o w)
    unfolding stop_supervisor clear_endpoint IsPublic
    stop_supervisor-IsSafe w h = if_either IsSafe w.sup.is_stopped h tt

    recover-IsSafe : (w : Runtime) → IsSafe w → IsSafe ((recover o w).0)
    unfolding recover start_process
    recover-IsSafe w h =
        if_either (λ (r : Runtime × Round). IsSafe r.0) (not o.validates) h
          (if_either (λ (r : Runtime × Round). IsSafe r.0) w.sup.is_stopped h
            (if_either (λ (r : Runtime × Round). IsSafe r.0) (not o.launches) h
              (if_either (λ (r : Runtime × Round). IsSafe r.0) o.ready
                (come_up-IsSafe (o.while_waiting (start_process w)) (waits (start_process w) h))
                (waits (start_process w) h))))

    running_exit-IsSafe : (w : Runtime) → IsSafe w → IsSafe ((running_exit o w).0)
    unfolding running_exit crash_exit count_crash clear_endpoint IsPublic
    running_exit-IsSafe w h =
        if_either (λ (r : Runtime × Round). IsSafe r.0) (w.sup.state == restarting) (ends w h)
          (if_either (λ (r : Runtime × Round). IsSafe r.0) o.cancelled tt
            (recover-IsSafe (o.while_ending (count_crash w)) (ends (count_crash w) h)))

    await_child-IsSafe :
        (child : Option ℕ) (w : Runtime) → IsSafe w → IsSafe ((await_child o child w).0)
    unfolding await_child handle_exit clear_endpoint IsPublic
    await_child-IsSafe none w h = h
    await_child-IsSafe (some child) w h =
        if_either (λ (r : Runtime × Round). IsSafe r.0) (contains w.closed child) h
          (if_either (λ (r : Runtime × Round). IsSafe r.0) w.sup.is_stopped tt
            (running_exit-IsSafe (clear_endpoint (record w { closed = child ∷ w.closed })) tt))

    monitor_round-IsSafe : (w : Runtime) → IsSafe w → IsSafe ((monitor_round o w).0)
    unfolding monitor_round
    monitor_round-IsSafe w h =
        if_either (λ (r : Runtime × Round). IsSafe r.0) w.sup.is_stopped h
          (await_child-IsSafe w.sup.process w h)

    -- If the endpoint that is published is public, or there is none, then so it is after a start, a
    -- restart, a stop, a health check, a change of the address and a round of the monitor, where what
    -- other goroutines do meanwhile keeps it so.
    pub operations_publish_public :
        (addr : String) (w : Runtime)
        → IsSafe w
        → IsSafe ((start o w).0)
          × IsSafe ((restart o w).0)
          × IsSafe (stop_supervisor o w)
          × IsSafe ((check_health o w).0)
          × IsSafe ((set_public_address o addr w).0)
          × IsSafe ((monitor_round o w).0)
    unfolding set_public_address
    operations_publish_public addr w h = (
      start-IsSafe w h,
      restart-IsSafe w h,
      stop_supervisor-IsSafe w h,
      check_health-IsSafe w h,
      address_set-IsSafe addr w.sup.vless_endpoint w h,
      monitor_round-IsSafe w h,
    )
