-- ===== src/Xray/Endpoint.antt =====
-- internal/xray/profile.go and internal/xray/validation.go: the public endpoint that is published while
-- Xray runs, and the checks on it. What these use of Go's packages strings, net and regexp is in `Net`.
use super_proxy.Base.{
  ℕ, String, Bool, true, false, ◌&&◌, ◌||◌, not, Option, none, some, ◌==◌, string_eq, nat_eq, ltb,
  if◌then◌else◌,
}
use super_proxy.Base.Int.{ℤ, pos}
use super_proxy.Xray.{PublicEndpoint, int_eq}

-- What net.ParseIP finds.
pub data Host : Type 0 where
  loopback unspecified ordinary : Host

pub record Net : Type 0 where
  pub trim_space : String → String
  pub trim : String → String → String
  pub contains : String → String → Bool
  pub count : String → String → ℕ
  pub equal_fold : String → String → Bool
  pub byte_length : String → ℕ
  pub parse_ip : String → Option Host
  pub is_hostname : String → Bool  -- hostnameRegex.MatchString

pub data AddressError : Type 0 where
  empty not_host localhost loopback_ip unspecified_ip not_hostname : AddressError

abbrev pub vless_public_port : ℤ
vless_public_port = pos 443

abbrev pub management_port : ℤ
management_port = pos 60000

-- ValidateVlessPublicPort: whether it returns no error.
unfoldable pub validate_vless_public_port : ℤ → Bool
validate_vless_public_port port = port == vless_public_port

-- ValidateManagementPort: whether it returns no error.
unfoldable pub validate_management_port : ℤ → Bool
validate_management_port port = port == management_port

-- The defaults of SetRuntimeVlessEndpoint.
unfoldable pub with_defaults : PublicEndpoint → PublicEndpoint
with_defaults ep = record ep {
  network = if ep.network == "" then "tcp" else ep.network;
  protocol = if ep.protocol == "" then "vless" else ep.protocol;
}

module _ (net : Net) where
  unfoldable pub check_host : String → Option Host → Option AddressError
  check_host trimmed (some loopback) = some loopback_ip
  check_host trimmed (some unspecified) = some unspecified_ip
  check_host trimmed (some ordinary) = none
  check_host trimmed none =
      if ltb 253 (net.byte_length trimmed) || not (net.is_hostname trimmed)
      then some not_hostname
      else none

  unfoldable pub is_pure_host : String → Bool
  is_pure_host trimmed =
      not (net.contains trimmed "://")
      && (not (net.contains trimmed "/")
          && not (
              net.contains trimmed ":"
              && (not (net.contains trimmed "[") && (net.count trimmed ":" == 1))))

  -- ValidatePublicAddress
  unfoldable pub validate_public_address : String → Option AddressError
  unfolding check_host is_pure_host
  validate_public_address addr =
      let trimmed = net.trim_space addr in
      if trimmed == ""
      then some empty
      else if not (is_pure_host trimmed)
      then some not_host
      else if net.equal_fold trimmed "localhost"
      then some localhost
      else check_host trimmed (net.parse_ip (net.trim trimmed "[]"))

  unfoldable pub is_valid_address : String → Bool
  is_valid_address addr = elim (validate_public_address addr) [ none ↦ true | some err ↦ false ]

  -- PublicEndpoint.Validate: whether it returns no error.
  unfoldable pub validate : PublicEndpoint → Bool
  unfolding is_valid_address validate_vless_public_port
  validate ep =
      is_valid_address ep.address
      && (validate_vless_public_port ep.port
          && ((ep.network == "tcp") && ((ep.protocol == "vless") && ep.tls)))

  -- SetRuntimeVlessEndpoint on activeRuntimeEndpoint, and whether it returns no error.
  unfoldable pub set_runtime_vless_endpoint :
      PublicEndpoint → Option PublicEndpoint → Option PublicEndpoint × Bool
  unfolding validate with_defaults
  set_runtime_vless_endpoint ep active =
      let full = with_defaults ep in if validate full then (some full, true) else (active, false)

  -- GetRuntimeVlessEndpoint
  unfoldable pub get_runtime_vless_endpoint : Option PublicEndpoint → Option PublicEndpoint
  unfolding validate
  get_runtime_vless_endpoint none = none
  get_runtime_vless_endpoint (some ep) = if validate ep then some ep else none
