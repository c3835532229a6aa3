-- ===== src/Reputation/Merge.antt =====
-- mergeProviderResult of internal/reputation/engine.go. `decimal` is what `%d` prints.
use Prim.Native.String.{◌++◌}
use super_proxy.Base.{
  ℕ, suc, String, Bool, true, false, ◌||◌, Option, none, some, ◌==◌, string_eq, if◌then◌else◌,
}
use super_proxy.Base.Int.{ℤ, pos, ◌+ℤ◌, ltb_ℤ}
use super_proxy.Models.{NetworkClass}
use super_proxy.Admission.{Result, risky, bad, unknown, rep_eq}
use super_proxy.Reputation.{Report}

unfoldable pub append : String → String → String
append s t = s ++ t

abbrev pub says : Option Bool → Bool
says none = false
says (some b) = b

abbrev pub shows_vpn : Report → Bool
shows_vpn r = r.network_info.is_vpn || says r.is_vpn

abbrev pub shows_proxy : Report → Bool
shows_proxy r = r.network_info.is_proxy || says r.is_proxy

abbrev pub shows_tor : Report → Bool
shows_tor r = r.network_info.is_tor || says r.is_tor

abbrev pub shows_hosting : Report → Bool
shows_hosting r = r.network_info.is_hosting || says r.is_hosting

-- The new text, unless it is empty.
abbrev pub replaced : String → String → String
replaced old new = if new == "" then old else new

-- Track Network Intelligence
unfoldable pub merge_network : Report → NetworkClass → NetworkClass
merge_network r info = record {
  asn = replaced info.asn (replaced r.asn r.network_info.asn);
  isp = replaced info.isp (replaced r.isp r.network_info.isp);
  organization = replaced info.organization (replaced r.organization r.network_info.organization);
  network_type = replaced info.network_type r.network_info.network_type;
  is_vpn = info.is_vpn || shows_vpn r;
  is_proxy = info.is_proxy || shows_proxy r;
  is_tor = info.is_tor || shows_tor r;
  is_hosting = info.is_hosting || shows_hosting r;
}

unfoldable pub merge_origin : (String → String) → Report → Result → Result
unfolding merge_network
merge_origin to_upper r total = record total {
  country = replaced total.country r.country;
  country_code = if r.country_code == "" then total.country_code else to_upper r.country_code;
  network_info = merge_network r total.network_info;
}

unfoldable pub note : String → Report → Result → Result
note text r total = record total {
  provider_reason =
      append total.provider_reason
        (append "[" (append r.provider (append text (append r.provider_reason "] "))));
}

-- HardReject, or BAD.
unfoldable pub merge_bad : Report → Result → Result
unfolding note
merge_bad r total =
    if r.hard_reject
    then note ": HARD REJECT - " r (record total { status = bad; hard_reject = true })
    else note ": BAD - " r (record total { status = bad })

-- RISKY, a penalty, or a trait.
unfoldable pub merge_risky : (ℤ → String) → Report → Result → Result
unfolding note
merge_risky decimal r total =
    note
      (if ltb_ℤ (pos 0) r.score_penalty
        then append ": RISKY/PENALTY (-" (append (decimal r.score_penalty) ") - ")
        else ": RISKY - ")
      r
      (record total {
        status = if total.status == bad then bad else risky;
        score_penalty = total.score_penalty +ℤ r.score_penalty;
      })

unfoldable pub is_risky : Report → Bool
is_risky r =
    (r.status == risky)
    || (ltb_ℤ (pos 0) r.score_penalty
        || (r.network_info.is_vpn || (r.network_info.is_hosting || r.network_info.is_proxy)))

-- Handle Status & Penalties; the count of UNKNOWN is in `merge_provider_result`.
unfoldable pub merge_status : (ℤ → String) → Report → Result → Result
unfolding merge_bad merge_risky note is_risky
merge_status decimal r total =
    if r.status == unknown
    then note ": UNKNOWN - " r total
    else if r.hard_reject || (r.status == bad)
    then merge_bad r total
    else if is_risky r
    then merge_risky decimal r total
    else note ": " r total

-- mergeProviderResult
unfoldable pub merge_provider_result :
    (String → String) → (ℤ → String) → Report → Result × ℕ → Result × ℕ
unfolding merge_status merge_origin
merge_provider_result to_upper decimal r (total, unknown_count) = (
  merge_status decimal r (merge_origin to_upper r total),
  if r.status == unknown then suc unknown_count else unknown_count,
)
