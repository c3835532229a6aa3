-- ===== src/Tests/ApiTests.antt =====
-- internal/agentapi/auth.go, internal/agentapi/ratelimit.go, internal/discovery/coordinator.go and the
-- backoff of internal/reputation/providers.go at concrete inputs.
use super_proxy.Base.{
  ℕ, ◌+◌, ◌-◌, ◌*◌, ◌≤◌, ◌<◌, String, true, false, ◌&&◌, refl, subst, arith, some, List, [], ◌∷◌,
  ◌==◌, string_eq, nat_eq, if◌then◌else◌, ◌≡◌, ◌≢◌, ◌↔◌, ◌⊎◌,
}
use super_proxy.Base.Int.{pow2}
use super_proxy.Base.Assoc
use super_proxy.Auth.{ApiRequest, Words, serves, bearer, presented, auth_middleware}
use super_proxy.Auth.Tokens.{
  Call, registers, revokes, run, only_master, is_master, is_registered, IsUncollided,
  auth_middleware-serves,
}
use super_proxy.Auth.Limits.{
  Limiter, Visit, visits, after, of_bucket, bucket_eq, rate_limit, bucket_is_isolated,
}
use super_proxy.Refresh.{
  Coordinator, new_refresh_coordinator, trigger, here, onward, triggers, refreshes_serial,
}
use super_proxy.Reputation.Providers.{BaseProvider, minute, is_healthy, record_failure}
use super_proxy.Reputation.RateLimits.{record_failure-bounds}

abbrev pub plain_words : Words
plain_words = record { split_two = λ s. some ("bearer", s); to_lower = λ s. s }

-- The digest of "old" is that of "sub_1".
abbrev pub plain_digest : String → String
plain_digest s = if s == "old" then "sub_1" else s

abbrev pub renewed : List Call
renewed = registers "sub_2" ∷ revokes "sub_1" ∷ registers "sub_1" ∷ []

abbrev pub export_request : ApiRequest
export_request = record { authorization = ""; query_token = "sub_2"; query_key = "" }

uncollided :
    (token : String)
    → presented plain_words export_request ≡ some token
    → IsUncollided plain_digest token renewed
unfolding presented bearer
uncollided token e =
    let same : "sub_2" ≡ token = ground (arith, e) in
    subst (λ t. IsUncollided plain_digest t renewed) same
      (
        λ h. refl,
        (
          λ h. ground (arith, h, string_eq.beq_iff "sub_1" "sub_2"),
          (λ h. ground (arith, h, string_eq.beq_iff "sub_1" "sub_2"), tt),
        ),
      )

auth_middleware-serves_example :
    (auth_middleware plain_digest plain_words
        (run plain_digest renewed (only_master plain_digest "key"))
        export_request
      ≡ serves)
    ↔ ((token : String) × (presented plain_words export_request ≡ some token)
        × (token ≢ "")
        × ((is_master "key" token ≡ true) ⊎ (is_registered token renewed ≡ true)))
auth_middleware-serves_example =
    auth_middleware-serves plain_digest plain_words "key" renewed export_request uncollided

-- A limiter that counts what is left of its burst.
abbrev pub counting : Limiter ℕ
counting = record { new_limiter = λ rate burst. burst; allow = λ now left. (left - 1, true) }

-- A wrong token was presented from the address in between.
abbrev seen : List Visit
seen = visits 7 "203.0.113.9" false ∷ visits 5 "203.0.113.9" true ∷ []

bucket_is_isolated_example :
    let visit = rate_limit counting 9 "203.0.113.9" true (after counting seen []) in
    let alone =
      rate_limit counting 9 "203.0.113.9" true
        (after counting (of_bucket ("203.0.113.9", true) seen) []) in
    (visit.1 ≡ alone.1)
    × (Assoc.lookup ("203.0.113.9", true) visit.0 ≡ Assoc.lookup ("203.0.113.9", true) alone.0)
bucket_is_isolated_example = bucket_is_isolated counting 9 "203.0.113.9" true seen []

abbrev pub refreshing : Coordinator
refreshing = (trigger 3 "startup" (new_refresh_coordinator true)).0

refreshes_serial_example :
    (refreshing.in_flight ≤ 1)
    × (refreshing.in_flight ≡ (if refreshing.status.running then 1 else 0))
    × ((trigger 4 "manual" refreshing).2 ≡ (refreshing.has_refresh && (refreshing.in_flight == 0)))
refreshes_serial_example =
    refreshes_serial true refreshing 4 "manual" (onward here (triggers 3 "startup"))

abbrev pub often_limited : BaseProvider
often_limited = record { consec_failures = 63; backoff_until = 0 }

record_failure-bounds_example :
    let after = record_failure 9 true 0 often_limited in
    ((63 ≤ 5) × (after.backoff_until ≡ 9 + pow2 63 * minute))
    ⊎ ((5 < 63) × (63 < 63) × (after.backoff_until ≡ 9 + 60 * minute))
    ⊎ ((63 ≤ 63) × (is_healthy 10 after ≡ true))
record_failure-bounds_example = record_failure-bounds 9 often_limited
