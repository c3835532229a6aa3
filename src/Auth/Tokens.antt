-- ===== src/Auth/Tokens.antt =====
-- Which tokens are valid, and which requests are served.
use super_proxy.Base.{
  String, Bool, true, false, ◌&&◌, ◌||◌, not, Option, none, some, List, [], ◌∷◌, ◌==◌, string_eq,
  Eq, if◌then◌else◌, ◌≡◌, ◌≢◌, ◌↔◌, ◌⊎◌, All, arith, refl, ap, Bool-cases, inl, inr,
}
use super_proxy.Base.Assoc
use super_proxy.Auth.{
  AuthState, ApiRequest, Words, serves, register_subscription_token, revoke_subscription_token,
  is_known, validate_token, presented, check_token, auth_middleware,
}

pub data Call : Type 0 where
  registers : String → Call
  revokes : String → Call

-- Whether the last call about a token registered it; the list has the last call first.
unfoldable pub is_registered : String → List Call → Bool
is_registered token [] = false
is_registered token (registers t ∷ calls) =
    let before = is_registered token calls in if t == token then true else before
is_registered token (revokes t ∷ calls) =
    let before = is_registered token calls in if t == token then false else before

abbrev pub subject : Call → String
subject (registers token) = token
subject (revokes token) = token

abbrev pub is_master : String → String → Bool
is_master key token = not (key == "") && (token == key)

module _ {D : Type 0} ⦃e : Eq D⦄ (sha256 : String → D) where
  unfoldable pub run : List Call → AuthState D → AuthState D
  run [] a = a
  run (registers token ∷ calls) a = register_subscription_token sha256 token (run calls a)
  run (revokes token ∷ calls) a = revoke_subscription_token sha256 token (run calls a)

  -- No subscription token yet.
  abbrev pub only_master : String → AuthState D
  only_master key = record { master_api_key = key; sub_token_hashes = [] }

  run-master :
      (calls : List Call) (a : AuthState D) → (run calls a).master_api_key ≡ a.master_api_key
  unfolding run register_subscription_token revoke_subscription_token
  run-master [] a = refl
  run-master (registers token ∷ calls) a = ground (arith, run-master calls a)
  run-master (revokes token ∷ calls) a = ground (arith, run-master calls a)

  -- No other token of the calls has the digest of this one.
  abbrev pub IsUncollided : String → List Call → Type 0
  IsUncollided token calls = All (λ c. sha256 (subject c) ≡ sha256 token → subject c ≡ token) calls

  same_digest :
      (t token : String)
      → (sha256 t ≡ sha256 token → t ≡ token)
      → (sha256 t == sha256 token) ≡ (t == token)
  same_digest t token distinct = ground (
    arith,
    e.beq_iff (sha256 t) (sha256 token),
    string_eq.beq_iff t token,
    distinct,
    ap sha256 {x = t} {y = token},
  )

  known-run :
      (key token : String) (calls : List Call)
      → IsUncollided token calls
      → (token == "") ≡ false
      → is_known (Assoc.lookup (sha256 token) (run calls (only_master key)).sub_token_hashes)
        ≡ is_registered token calls
  unfolding run is_registered Assoc.lookup register_subscription_token revoke_subscription_token
  known-run key token [] u h = refl
  known-run key token (registers t ∷ calls) (apart, u) h =
      let hashes = (run calls (only_master key)).sub_token_hashes in
      ground (
        arith,
        h,
        known-run key token calls u h,
        same_digest t token apart,
        string_eq.beq_iff t "",
        string_eq.beq_iff t token,
        string_eq.beq_iff token "",
        Assoc.lookup-insert (sha256 t) (sha256 token) true hashes,
      )
  known-run key token (revokes t ∷ calls) (apart, u) h =
      let hashes = (run calls (only_master key)).sub_token_hashes in
      ground (
        arith,
        h,
        known-run key token calls u h,
        same_digest t token apart,
        string_eq.beq_iff t "",
        string_eq.beq_iff t token,
        string_eq.beq_iff token "",
        Assoc.lookup-delete (sha256 t) (sha256 token) hashes,
      )

  validate_token-run :
      (key token : String) (calls : List Call)
      → IsUncollided token calls
      → validate_token sha256 token (run calls (only_master key))
        ≡ (not (token == "") && (is_master key token || is_registered token calls))
  unfolding validate_token
  validate_token-run key token calls u = elim (Bool-cases (token == "")) [
    | inl p ↦ rw p refl
    | inr p ↦ ground (
      arith,
      p,
      known-run key token calls u p,
      ap (λ k. not (k == "") && (token == k)) (run-master calls (only_master key)),
    )
  ]

  check_token-serves :
      (a : AuthState D) (o : Option String)
      → (check_token sha256 a o ≡ serves) ↔ (
          (token : String) × (o ≡ some token)
          × (token ≢ "")
          × (validate_token sha256 token a ≡ true))
  unfolding check_token
  check_token-serves a none = (λ h. ground (arith, h), λ (token, e, n, v). ground (arith, e))
  check_token-serves a (some t) = (
    λ h. (t, refl, ground (arith, h, string_eq.beq_iff t ""), ground (arith, h)),
    λ (token, e, n, v).
        let same : t ≡ token = ground (arith, e) in
        ground
          (arith, same, n, v, string_eq.beq_iff t "", ap (λ k. validate_token sha256 k a) same),
  )

  -- After any registrations and revocations, if no other token among them has the digest of the one that
  -- is presented, a request is served exactly when the token that it presents is not empty and is the master key, or was registered
  -- and has not been revoked since.
  pub auth_middleware-serves :
      (words : Words) (key : String) (calls : List Call) (r : ApiRequest)
      → ((token : String) → presented words r ≡ some token → IsUncollided token calls)
      → (auth_middleware sha256 words (run calls (only_master key)) r ≡ serves) ↔ (
          (token : String) × (presented words r ≡ some token)
          × (token ≢ "")
          × ((is_master key token ≡ true) ⊎ (is_registered token calls ≡ true)))
  unfolding auth_middleware
  auth_middleware-serves words key calls r u =
      let iff = check_token-serves (run calls (only_master key)) (presented words r) in
      (
        λ h.
            let (token, e, n, v) = iff.0 h in
            (token, e, n, ground (arith, v, validate_token-run key token calls (u token e))),
        λ (token, e, n, v). iff.1 (
          token,
          e,
          n,
          ground (
            arith,
            v,
            n,
            string_eq.beq_iff token "",
            validate_token-run key token calls (u token e),
          ),
        ),
      )
