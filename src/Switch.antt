-- ===== src/Switch.antt =====
-- internal/agentapi/operations.go and handleSlotAction of internal/agentapi/handlers_write.go: an
-- operator replaces the tunnel of a slot by one through a chosen node.
pub mod Operations
pub mod Execute
pub mod Outcome
pub mod Safety
pub mod Admitted
pub mod Reserve
pub mod Reservation
