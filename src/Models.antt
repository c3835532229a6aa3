-- ===== src/Models.antt =====
-- internal/models/node.go: the status of a node, and what the scheduler and the reputation engine
-- read and write of its record. Times are numbers of nanoseconds; the columns that are only shown
-- (message, operator, host name, traffic) are left out.
use super_proxy.Base.{ℕ, String, Bool, true, false, ◌≡◌, ◌↔◌, arith, ite, Eq, string_discrete}
use super_proxy.Base.Int.{ℤ}

-- The `Status…` constants. `unset` is the empty string, and `other` any string that is no constant.
pub data Status : Type 0 where
  unset new discovered reputation_checked connecting health_check speed_test healthy : Status
  qualified standby active draining failed cooldown dead stale : Status
  other : String → Status

unfoldable pub Status-discrete : Discrete Status
unfolding string_discrete
Status-discrete = hlevel string_discrete

abbrev pub status_beq : Status → Status → Bool
status_beq a b = ite (Status-discrete a b) true false

pub status_beq_iff : (a b : Status) → (status_beq a b ≡ true) ↔ (a ≡ b)
status_beq_iff a b = ground arith

instance abbrev pub status_eq : Eq Status
status_eq = record { beq = status_beq; beq_iff = status_beq_iff }

pub record ReputationMetrics : Type 0 where
  pub status : String
  pub is_blacklisted : Bool
  pub fraud_score : ℤ
  pub provider_name : String
  pub details : String

pub record NetworkClass : Type 0 where
  pub asn : String
  pub isp : String
  pub organization : String
  pub network_type : String
  pub is_vpn : Bool
  pub is_proxy : Bool
  pub is_tor : Bool
  pub is_hosting : Bool

pub record Node : Type 0 where
  pub id : String
  pub ip : String
  pub observed_exit_ip : String
  pub country : String
  pub score : ℤ
  pub status : Status
  pub fail_count : ℕ
  pub last_error : String
  pub last_failure_at : ℕ
  pub reputation : ReputationMetrics
  pub net_class : NetworkClass
