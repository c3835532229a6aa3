-- ===== src/Auth.antt =====
-- internal/agentapi/auth.go and internal/agentapi/ratelimit.go: who may call the agent's API, and how
-- often. SHA-256, the splitting of texts and the limiter of golang.org/x/time/rate are parameters; a
-- limiter's bucket is named by the address and whether the caller is authenticated, as its key is.
pub mod Tokens
pub mod Limits
use super_proxy.Base.{
  String, Bool, true, false, ◌&&◌, ◌||◌, not, Option, none, some, List, [], ◌∷◌, ◌==◌, string_eq,
  Eq, if◌then◌else◌,
}
use super_proxy.Base.Assoc

-- masterAPIKey and subTokenHashes, by digests.
pub record AuthState (D : Type 0) : Type 0 where
  pub master_api_key : String
  pub sub_token_hashes : List (D × Bool)

-- What a request shows: its Authorization header and the token and key of its query.
pub record ApiRequest : Type 0 where
  pub authorization : String
  pub query_token : String
  pub query_key : String

-- strings.SplitN(s, " ", 2) where it gives two parts, and strings.ToLower.
pub record Words : Type 0 where
  pub split_two : String → Option (String × String)
  pub to_lower : String → String

-- How authMiddleware ends: 401, 403, or the handler.
pub data AuthVerdict : Type 0 where
  unauthorized forbidden serves : AuthVerdict

-- InitAuth: the environment's key, or the configuration's.
unfoldable pub init_auth : {D : Type 0} → String → String → AuthState D → AuthState D
init_auth env_key config_key a = record a {
  master_api_key = if env_key == "" then config_key else env_key;
}

abbrev pub is_known : Option Bool → Bool
is_known none = false
is_known (some b) = b

-- The token of a request, or none where the header is malformed.
unfoldable pub bearer : Words → Option (String × String) → Option String
bearer words none = none
bearer words (some (scheme, token)) = if words.to_lower scheme == "bearer" then some token else none

unfoldable pub presented : Words → ApiRequest → Option String
unfolding bearer
presented words r =
    if not (r.authorization == "")
    then bearer words (words.split_two r.authorization)
    else some (if not (r.query_token == "") then r.query_token else r.query_key)

module _ {D : Type 0} ⦃e : Eq D⦄ (sha256 : String → D) where
  -- RegisterSubscriptionToken
  unfoldable pub register_subscription_token : String → AuthState D → AuthState D
  register_subscription_token token a =
      if token == ""
      then a
      else record a { sub_token_hashes = Assoc.insert (sha256 token) true a.sub_token_hashes }

  -- RevokeSubscriptionToken
  unfoldable pub revoke_subscription_token : String → AuthState D → AuthState D
  revoke_subscription_token token a =
      if token == ""
      then a
      else record a { sub_token_hashes = Assoc.delete (sha256 token) a.sub_token_hashes }

  -- ValidateToken
  unfoldable pub validate_token : String → AuthState D → Bool
  validate_token token a =
      if token == ""
      then false
      else if not (a.master_api_key == "") && (token == a.master_api_key)
      then true
      else is_known (Assoc.lookup (sha256 token) a.sub_token_hashes)

  unfoldable pub check_token : AuthState D → Option String → AuthVerdict
  unfolding validate_token
  check_token a none = unauthorized
  check_token a (some token) =
      if token == "" then unauthorized else if validate_token token a then serves else forbidden

  -- authMiddleware
  unfoldable pub auth_middleware : Words → AuthState D → ApiRequest → AuthVerdict
  unfolding presented check_token
  auth_middleware words a r = check_token a (presented words r)

  unfoldable pub is_valid_bearer : AuthState D → Option String → Bool
  unfolding validate_token
  is_valid_bearer a none = false
  is_valid_bearer a (some token) = validate_token token a

  -- isRequestAuthenticated
  unfoldable pub is_request_authenticated : Words → AuthState D → ApiRequest → Bool
  unfolding is_valid_bearer bearer validate_token
  is_request_authenticated words a r =
      (not (r.authorization == "")
        && is_valid_bearer a (bearer words (words.split_two r.authorization)))
      || ((not (r.query_token == "") && validate_token r.query_token a)
          || (not (r.query_key == "") && validate_token r.query_key a))
