-- ===== src/Standby.antt =====
-- maintainStandbyPool of internal/scheduler/scheduler.go: one more tunnel is qualified for the pool.
pub mod Qualify
pub mod Outcome
pub mod Safety
