-- ===== src/Admission.antt =====
-- internal/scheduler/admission.go: which addresses may carry traffic. What the reputation engine
-- answers for an address (`RepEngine.EvaluateIP`) is an argument; `Reputation` models how it is made.
pub mod Policy
use super_proxy.Base.{
  ℕ, String, Bool, true, false, ◌&&◌, ◌||◌, not, Option, none, some, List, [], ◌∷◌, ◌++◌,
  if◌then◌else◌, ◌==◌, string_eq, is_some, Eq, ◌≡◌, ◌↔◌, arith, ite,
}
use super_proxy.Base.Int.{ℤ}
use super_proxy.Models.{Node, NetworkClass}
use super_proxy.Diversity.{Text, Ip}

-- ReputationStatus
pub data ReputationStatus : Type 0 where
  good risky bad unknown : ReputationStatus

unfoldable pub ReputationStatus-discrete : Discrete ReputationStatus
ReputationStatus-discrete = hlevel

abbrev pub rep_beq : ReputationStatus → ReputationStatus → Bool
rep_beq a b = ite (ReputationStatus-discrete a b) true false

pub rep_beq_iff : (a b : ReputationStatus) → (rep_beq a b ≡ true) ↔ (a ≡ b)
rep_beq_iff a b = ground arith

instance abbrev pub rep_eq : Eq ReputationStatus
rep_eq = record { beq = rep_beq; beq_iff = rep_beq_iff }

-- reputation.Result; the list of evidences is only stored.
pub record Result : Type 0 where
  pub ip : String
  pub country : String
  pub country_code : String
  pub status : ReputationStatus
  pub hard_reject : Bool
  pub score_penalty : ℤ
  pub provider_reason : String
  pub network_info : NetworkClass

pub data AdmissionError : Type 0 where
  invalid_ip no_engine lookup_failed no_result hard_rejected prohibited_traits : AdmissionError
  conservative_unknown geolocation_mismatch : AdmissionError

-- What RepEngine.EvaluateIP returns: an error, no result, or a result.
pub data Lookup : Type 0 where
  fails : Lookup
  answers : Option Result → Lookup

-- The engine of a scheduler: its failure policy and its answers.
pub record Engine : Type 0 where
  pub failure_policy : String
  pub evaluate_ip : String → Lookup

-- prohibitedTraits
unfoldable pub prohibited_traits_of : NetworkClass → List String
prohibited_traits_of info =
    (if info.is_hosting then "hosting/datacenter" ∷ [] else [])
    ++ ((if info.is_vpn then "VPN" ∷ [] else [])
        ++ ((if info.is_proxy then "public proxy" ∷ [] else [])
            ++ (if info.is_tor then "Tor" ∷ [] else [])))

-- The checks on a result.
unfoldable pub judge : Engine → Result → Option AdmissionError
judge engine result =
    if result.hard_reject
    then some hard_rejected
    else if info.is_hosting || (info.is_vpn || (info.is_proxy || info.is_tor))
    then some prohibited_traits
    else if (result.status == ReputationStatus.unknown) && (engine.failure_policy == "conservative")
    then some conservative_unknown
    else none
  where
    info : NetworkClass
    info = result.network_info

-- What EvaluateIPAdmission makes of the engine's answer: the result, which a refusal may come with, and
-- the error.
unfoldable pub judged : Engine → Lookup → Option Result × Option AdmissionError
judged engine fails = (none, some lookup_failed)
judged engine (answers none) = (none, some no_result)
judged engine (answers (some result)) = (some result, judge engine result)

unfoldable pub consult : Option Ip → Option Engine → String → Option Result × Option AdmissionError
consult none engine ip = (none, some invalid_ip)
consult (some parsed) none ip = (none, some no_engine)
consult (some parsed) (some engine) ip = judged engine (engine.evaluate_ip ip)

unfoldable pub evaluate_ip_admission :
    Text → Option Engine → String → Option Result × Option AdmissionError
evaluate_ip_admission text engine ip = consult (text.parse_ip (text.trim_space ip)) engine ip

unfoldable pub check_region : Text → String → Result → Option AdmissionError
check_region text expected_country result =
    let expected = text.to_upper (text.trim_space expected_country) in
    let actual = text.to_upper (text.trim_space result.country_code) in
    if not (expected == "") && (not (actual == "") && not (actual == expected))
    then some geolocation_mismatch
    else none

-- EvaluateIPAdmissionForRegion after its call of EvaluateIPAdmission.
unfoldable pub locate :
    Text → String → Option Result × Option AdmissionError → Option Result × Option AdmissionError
locate text expected_country (result, some err) = (result, some err)
locate text expected_country (none, none) = (none, none)
locate text expected_country (some result, none) =
    (some result, check_region text expected_country result)

unfoldable pub evaluate_ip_admission_for_region :
    Text → Option Engine → String → String → Option Result × Option AdmissionError
evaluate_ip_admission_for_region text engine ip expected_country =
    locate text expected_country (evaluate_ip_admission text engine ip)

abbrev pub status_text : ReputationStatus → String
status_text good = "GOOD"
status_text risky = "RISKY"
status_text bad = "BAD"
status_text unknown = "UNKNOWN"

-- PersistAdmissionResult on the record; its UPDATE writes the same columns. applyAdmissionResult of
-- internal/discovery/vetting.go makes the same assignments.
unfoldable pub persist_admission_result : Node → Option Result → Node
persist_admission_result node none = node
persist_admission_result node (some result) = record node {
  reputation = record {
    status = status_text result.status;
    is_blacklisted = result.hard_reject;
    fraud_score = result.score_penalty;
    provider_name = "multi-provider";
    details = result.provider_reason;
  };
  net_class = result.network_info;
}
