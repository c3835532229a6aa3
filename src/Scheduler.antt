-- ===== src/Scheduler.antt =====
-- internal/scheduler/scheduler.go: the tunnels behind the egress slots. `State` has the data,
-- `Drain`, `Cleanup` and `Reconcile` the passes of the monitor loop, the other children their proofs.
pub mod State
pub mod Drain
pub mod Cleanup
pub mod Reconcile
pub mod Ownership
pub mod DrainMoves
pub mod Refinement
pub mod DrainLaws
pub mod CleanupLaws
pub mod Controllers
pub mod PromotionLaws
