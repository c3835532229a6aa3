-- ===== src/Lib.antt =====
-- super-proxy keeps a few egress slots of an Xray server supplied with OpenVPN tunnels through
-- vetted public nodes. This library models the parts that decide what serves a slot, and proves
-- them correct.
--
-- The parts and their files:
--   * Models: internal/models/node.go, a node's record and status.
--   * Fsm: internal/scheduler/fsm.go, the life cycle of a node, in memory and in the database.
--   * Slots: internal/scheduler/slot_controller.go and state.go, the leases on a slot.
--   * Scheduler: internal/scheduler/scheduler.go. `Scheduler/State` is its data, `Scheduler/Drain` is
--     transitionToDrainingLocked and DrainReplacedTunnelLocked, `Scheduler/Cleanup` is
--     cleanupDrainingSlots, `Scheduler/Reconcile` is reconcileActiveSlots; the other files prove what
--     they do. `Scheduler/Ownership` is the abstract machine that they refine: which moves a tunnel may
--     make between the active, draining and standby collections.
--   * Diversity: internal/scheduler/diversity.go and AnalyzePrefix of internal/reputation/prefix.go.
--   * Admission: internal/scheduler/admission.go, which addresses may carry traffic.
--   * Switch: internal/agentapi/operations.go and handleSlotAction of
--     internal/agentapi/handlers_write.go, an operator's change of a slot's tunnel.
--   * Standby: maintainStandbyPool of internal/scheduler/scheduler.go, which qualifies tunnels for the pool.
--   * Candidates: internal/scheduler/region_selector.go, which node is tried next. Scoring:
--     internal/scheduler/scoring.go.
--   * Endpoint: internal/routing/endpoint.go, the shared host routes of the tunnels' endpoints.
--   * Xray: internal/xray/supervisor.go, with internal/xray/profile.go and internal/xray/validation.go.
--     `Xray/Routing` generates the rules and balancers of a set of slots, `Xray/Selectors` says which outbounds
--     Xray selects for them, by prefix, `Xray/ReadBack` verifies what
--     Xray answers, `Xray/ActiveSet` changes the set of slots, `Xray/Lifecycle` and `Xray/Monitor` start,
--     stop, restart and watch the process, `Xray/Endpoint` publishes the public endpoint; the other files
--     are their proofs.
--   * Reputation: internal/reputation/engine.go, BaseProvider of internal/reputation/providers.go, and
--     the statistics of internal/reputation/prefix.go and asn.go (`Reputation/Observations`,
--     `Reputation/AsnProfile`).
--   * Health: internal/health/layered.go, the check of a tunnel.
--   * Auth: internal/agentapi/auth.go and internal/agentapi/ratelimit.go.
--   * Refresh: internal/discovery/coordinator.go.
--   * Ovpn: internal/discovery/vpngate_ovpn.go. `Ovpn/Strings` has Go's text functions, `Ovpn/Checks` the
--     checks on texts, `Ovpn/Directives`, `Ovpn/Parse` and `Ovpn/Resolve` the parser and `Ovpn/Generate`
--     the configurations that are written; `Ovpn/Reader` is an independent description of how OpenVPN
--     reads them; the other files are proofs.
--   * Cache: internal/reputation/cache.go. Region: internal/region/filter.go.
--   * Base: shared tests, lists, association lists (for Go's maps) and integers. Tests: concrete runs.
--
-- How the parts interact: the scheduler's passes and a manual switch change one `Scheduler` under
-- its mutex, the one by `reconcile_active_slots` and `cleanup_draining_slots`, the other by
-- `reserve`, which takes a lease of `Slots`, and `execute_manual_switch`, which commits through
-- `drain_replaced_tunnel`. Both admit addresses by `Admission` and `Diversity`, and record a
-- node's status by `Fsm`. A `*Tunnel` is a number into one table, since slots, controllers and the
-- draining map share tunnels.
--
-- The answers that one part takes from another are arguments of its definitions: the scheduler
-- asks whether Xray drains or activates a slot, which `Xray/ActiveSet` decides, whether a tunnel
-- is healthy, which `Health` decides, and what the reputation engine finds, which `Reputation`
-- computes.
--
-- What is outside: Xray, `ip`, conntrack, OpenVPN processes, the database, the clock, the
-- reputation providers, Go's text and net functions, and the HTTP library. Each answers through a
-- record (`Env`, `Calls`, `Answers`, `Text`, `Engine`, `Api`, `Outside`, `Net`, `Format`, `Probe`,
-- `Library`, `Columns`, `Measured`) or an argument, and the theorems hold for every answer that they
-- do not name. `Ovpn` walks texts rune by rune, so it writes Go's functions on texts out, and takes
-- only the tables of letters and cases from outside; an input that is no UTF-8 is read as its runes.
-- What other goroutines do between two sections of a manual switch, of an attempt to fill the pool,
-- or of a start of Xray, is any function. The iteration order of a Go map is the order of an
-- association list, which is arbitrary too.
--
-- Bounds: a slot's generation is a uint64 and wraps (`% 2 ^ 64`), and the theorems on leases ask
-- for fewer than 2 ^ 64 calls. The shifts `1 << n` of the backoffs keep their 64 bits
-- (`shift_one`). Other counters are Go ints far from their bounds. The ratios of the statistics are
-- compared by cross-multiplication, as exact fractions, which for fewer than 2 ^ 48 samples is what
-- the floats of the code decide. `decimal_digits` prints a number with fuel for 20 digits, one more
-- than an int has. Every other loop that is modelled goes over a list or up to the number of
-- slots.
--
-- Not modelled: an OpenVPN process that cannot be reaped even after SIGKILL (`stop`), the scheduler's
-- monitor loop and fillToActiveCapacity, the averages and texts of the statistics and scores,
-- the reputation providers' HTTP clients, discovery's fetching, vetting and storing, StripSecrets,
-- the client profiles, and what is input and output only (HTTP views, commands, configuration files,
-- database migrations, metrics).
pub mod Base
pub mod Models
pub mod Fsm
pub mod Slots
pub mod Scheduler
pub mod Diversity
pub mod Admission
pub mod Switch
pub mod Standby
pub mod Endpoint
pub mod Cache
pub mod Ovpn
pub mod Region
pub mod Xray
pub mod Reputation
pub mod Auth
pub mod Refresh
pub mod Health
pub mod Candidates
pub mod Scoring
mod Tests
