-- ===== src/Reputation.antt =====
-- internal/reputation/engine.go: what the providers report on an address, and how it becomes one result.
-- `Merge` joins one report to the result, `Evaluate` asks the providers, the laws are in `Verdict` and
-- `Expiry`. The raw scores of a report, which are only stored, are left out.
pub mod Merge
pub mod Providers
pub mod RateLimits
pub mod Observations
pub mod Condemned
pub mod AsnProfile
pub mod Evaluate
pub mod Outcomes
pub mod Verdict
pub mod Expiry
use super_proxy.Base.{ℕ, String, Bool, Option}
use super_proxy.Base.Int.{ℤ}
use super_proxy.Models.{NetworkClass}
use super_proxy.Admission.{ReputationStatus, Result}
use super_proxy.Cache.{Cache}

-- ReputationResult of internal/reputation/providers.go; a zero ObservedAt is none.
pub record Report : Type 0 where
  pub provider : String
  pub ip : String
  pub status : ReputationStatus
  pub is_vpn : Option Bool
  pub is_proxy : Option Bool
  pub is_tor : Option Bool
  pub is_hosting : Option Bool
  pub asn : String
  pub isp : String
  pub organization : String
  pub country : String
  pub country_code : String
  pub observed_at : Option ℕ
  pub error : String
  pub hard_reject : Bool
  pub score_penalty : ℤ
  pub provider_reason : String
  pub network_info : NetworkClass

-- What CheckIP returns: an error, nil, or a report.
pub data Check : Type 0 where
  errs : String → Check
  no_answer : Check
  reports : Report → Check

-- A provider as one evaluation meets it: its name, what loadPersistedProviderResult finds, with its
-- expiry, and what CheckIP returns.
pub record Provider : Type 0 where
  pub name : String
  pub persisted : Option (Report × ℕ)
  pub check : Check

-- The fields of Engine that an evaluation reads.
pub record Config : Type 0 where
  pub failure_policy : String
  pub lenient_penalty : ℤ

abbrev pub ResultCache : Type 0
ResultCache = Cache Result Report
