-- ===== src/Admission/Policy.antt =====
-- What an admitted address has been checked for.
use super_proxy.Base.{String, false, Option, none, some, string_eq, ◌≡◌, ◌≢◌, ◌↔◌, ◌⊎◌, arith, refl}
use super_proxy.Diversity.{Text, Ip}
use super_proxy.Admission.{
  unknown, Result, AdmissionError, Lookup, fails, answers, Engine, evaluate_ip_admission,
  evaluate_ip_admission_for_region, check_region, rep_eq, judge, judged, locate, consult,
  evaluate_ip_admission,
}

-- No score outweighs one of these.
pub record IsClean (engine : Engine) (result : Result) : Type 0 where
  pub not_rejected : result.hard_reject ≡ false
  pub not_hosting : result.network_info.is_hosting ≡ false
  pub not_vpn : result.network_info.is_vpn ≡ false
  pub not_proxy : result.network_info.is_proxy ≡ false
  pub not_tor : result.network_info.is_tor ≡ false
  pub known : (result.status ≢ unknown) ⊎ (engine.failure_policy ≢ "conservative")

-- The expected region is unset, not reported, or met.
abbrev pub IsLocal : Text → String → Result → Type 0
IsLocal text country result =
    let expected = text.to_upper (text.trim_space country) in
    let actual = text.to_upper (text.trim_space result.country_code) in
    (expected ≡ "") ⊎ ((actual ≡ "") ⊎ (actual ≡ expected))

pub judge-IsClean :
    (engine : Engine) (result : Result) → (judge engine result ≡ none) ↔ IsClean engine result
unfolding judge
judge-IsClean engine result = (
  λ h. ground (arith, string_eq.beq_iff engine.failure_policy "conservative"),
  λ c. ground (arith, string_eq.beq_iff engine.failure_policy "conservative"),
)

check_region-IsLocal :
    (text : Text) (country : String) (result : Result)
    → (check_region text country result ≡ none) ↔ IsLocal text country result
unfolding check_region
check_region-IsLocal text country result =
    let expected = text.to_upper (text.trim_space country) in
    let actual = text.to_upper (text.trim_space result.country_code) in
    ground (
      arith,
      string_eq.beq_iff expected "",
      string_eq.beq_iff actual "",
      string_eq.beq_iff actual expected,
    )

locate_iff :
    (text : Text) (country : String) (result : Result) (err : Option AdmissionError)
    → ((locate text country (some result, err)).1 ≡ none)
      ↔ ((err ≡ none) × IsLocal text country result)
unfolding locate
locate_iff text country result none = ground (arith, check_region-IsLocal text country result)
locate_iff text country result (some err) = ground arith

judged_admits :
    (text : Text) (engine : Engine) (country : String) (result : Result)
    → ((locate text country (judged engine (answers (some result)))).1 ≡ none)
      ↔ (IsClean engine result × IsLocal text country result)
unfolding judged
judged_admits text engine country result = (
  λ h.
      let (clean, local) = (locate_iff text country result (judge engine result)).0 h in
      ((judge-IsClean engine result).0 clean, local),
  λ (clean, local).
      (locate_iff text country result (judge engine result)).1
        ((judge-IsClean engine result).1 clean, local),
)

judged_admitted :
    (text : Text) (engine : Engine) (country : String) (lookup : Lookup)
    → (locate text country (judged engine lookup)).1 ≡ none
    → (result : Result) × (lookup ≡ answers (some result))
      × IsClean engine result
      × IsLocal text country result
unfolding locate judged
judged_admitted text engine country fails h = ground arith
judged_admitted text engine country (answers none) h = ground arith
judged_admitted text engine country (answers (some result)) h =
    let (clean, local) = (judged_admits text engine country result).0 h in
    (result, refl, clean, local)

consult_admitted :
    (text : Text) (country ip : String) (address : Option Ip) (engine : Option Engine)
    → (locate text country (consult address engine ip)).1 ≡ none
    → (parsed : Ip) × (e : Engine) × (result : Result) × (address ≡ some parsed)
      × (engine ≡ some e)
      × (e.evaluate_ip ip ≡ answers (some result))
      × IsClean e result
      × IsLocal text country result
unfolding locate consult
consult_admitted text country ip none engine h = ground arith
consult_admitted text country ip (some parsed) none h = ground arith
consult_admitted text country ip (some parsed) (some e) h =
    let (result, found, clean, local) = judged_admitted text e country (e.evaluate_ip ip) h in
    (parsed, e, result, refl, refl, found, clean, local)

consult_admits :
    (text : Text) (country ip : String) (parsed : Ip) (engine : Engine) (result : Result)
    → engine.evaluate_ip ip ≡ answers (some result)
    → IsClean engine result
    → IsLocal text country result
    → (locate text country (consult (some parsed) (some engine) ip)).1 ≡ none
unfolding consult
consult_admits text country ip parsed engine result found clean local =
    rw found ((judged_admits text engine country result).1 (clean, local))

-- An address is admitted for a region exactly when it parses, there is an engine, and the engine gives
-- a result for it that is clean and local.
pub admitted_iff :
    (text : Text) (engine : Option Engine) (ip country : String)
    → ((evaluate_ip_admission_for_region text engine ip country).1 ≡ none) ↔ (
        (parsed : Ip) × (e : Engine) × (result : Result) × (text.parse_ip (text.trim_space ip)
          ≡ some parsed)
        × (engine ≡ some e)
        × (e.evaluate_ip ip ≡ answers (some result))
        × IsClean e result
        × IsLocal text country result)
unfolding evaluate_ip_admission_for_region evaluate_ip_admission
admitted_iff text engine ip country = (
  λ h. consult_admitted text country ip (text.parse_ip (text.trim_space ip)) engine h,
  λ (parsed, e, result, hp, he, found, clean, local).
      rw (hp, he) (consult_admits text country ip parsed e result found clean local),
)
