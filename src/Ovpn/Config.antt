-- ===== src/Ovpn/Config.antt =====
-- The data of internal/discovery/vpngate_ovpn.go, and OpenVPNEndpoint and OpenVPNConfigMeta of
-- internal/models/node.go.
use super_proxy.Base.{ℕ, Bool, true, List, [], Option, none}
use super_proxy.Base.Int.{ℤ, pos}
use super_proxy.Ovpn.Strings.{Chars, Unicode, chars}

-- The parts of Go's library that the parser calls.
pub record Library : Type 0 where
  pub unicode : Unicode
  pub decode_std : Chars → Option Chars
  pub decode_raw : Chars → Option Chars
  pub is_ip : Chars → Bool

pub record OpenVpnEndpoint : Type 0 where
  pub host : Chars
  pub port : ℤ
  pub proto : Chars

pub record OpenVpnConfigMeta : Type 0 where
  pub endpoints : List OpenVpnEndpoint
  pub primary_endpoint : Option OpenVpnEndpoint
  pub dev : Chars
  pub dev_type : Chars
  pub cipher : Chars
  pub data_ciphers : Chars
  pub auth : Chars
  pub remote_cert_tls : Chars
  pub verify_x509_name : Chars

-- A primary endpoint that is not set yet is `none`.
pub record SafeOpenVpnConfig : Type 0 where
  pub protocol : Chars
  pub endpoints : List OpenVpnEndpoint
  pub primary_endpoint : Option OpenVpnEndpoint
  pub dev : Chars
  pub dev_type : Chars
  pub cipher : Chars
  pub data_ciphers : Chars
  pub auth : Chars
  pub remote_cert_tls : Chars
  pub verify_x509_name : Chars
  pub tls_version_min : Chars
  pub nobind : Bool
  pub inline_ca : Chars
  pub inline_cert : Chars
  pub inline_key : Chars

pub record RawRemote : Type 0 where
  pub host : Chars
  pub port : ℤ
  pub has_explicit_port : Bool
  pub raw_proto : Chars

-- The variables of the scan: an empty tag stands for no inline block.
pub record Scan : Type 0 where
  pub safe_cfg : SafeOpenVpnConfig
  pub meta : OpenVpnConfigMeta
  pub global_proto : Chars
  pub global_port : ℤ
  pub raw_remotes : List RawRemote
  pub current_inline_tag : Chars
  pub current_inline_content : Chars

pub data ParseError : Type 0 where
  empty_data not_base64 empty_config read_error no_valid_remote : ParseError
  invalid_inline unauthorized_tag argument_injection disallowed unrecognized : Chars → ParseError
  metacharacter : ℕ → Chars → ParseError

pub data Try {ℓ} (A : Type ℓ) : Type ℓ where
  failed : ParseError → Try A
  ok : A → Try A

abbrev pub blank_meta : OpenVpnConfigMeta
blank_meta = record {
  endpoints = [];
  primary_endpoint = none;
  dev = [];
  dev_type = [];
  cipher = [];
  data_ciphers = [];
  auth = [];
  remote_cert_tls = [];
  verify_x509_name = [];
}

abbrev pub initial_config : SafeOpenVpnConfig
initial_config = record {
  protocol = [];
  endpoints = [];
  primary_endpoint = none;
  dev = chars "tun";
  dev_type = chars "tun";
  cipher = [];
  data_ciphers = [];
  auth = [];
  remote_cert_tls = [];
  verify_x509_name = [];
  tls_version_min = [];
  nobind = true;
  inline_ca = [];
  inline_cert = [];
  inline_key = [];
}

unfoldable pub initial_scan : Scan
unfolding chars
initial_scan = record {
  safe_cfg = initial_config;
  meta = blank_meta;
  global_proto = [];
  global_port = pos 0;
  raw_remotes = [];
  current_inline_tag = [];
  current_inline_content = [];
}
