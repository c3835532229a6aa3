-- ===== src/Ovpn/Resolve.antt =====
-- The end of ParseSafeOpenVPNConfig in internal/discovery/vpngate_ovpn.go, which resolves the remotes,
-- and the whole of it but for the configuration that is then written.
use super_proxy.Base.{
  Bool, ◌&&◌, ◌||◌, not, Option, none, some, List, [], ◌∷◌, if◌then◌else◌, ◌==◌, nat_eq,
}
use super_proxy.Base.Int.{ℤ, pos, ltb_ℤ}
use super_proxy.Ovpn.Strings.{
  Chars, chars, chars_eq, no_chars, trim_space_chars, split_lines, scan_tokens,
}
use super_proxy.Ovpn.Checks.{is_valid_port, normalize_proto, validate_host}
use super_proxy.Ovpn.Config.{
  Library, OpenVpnEndpoint, OpenVpnConfigMeta, SafeOpenVpnConfig, RawRemote, Scan, Try, failed, ok,
  empty_data, not_base64, empty_config, read_error, no_valid_remote, initial_scan,
}
use super_proxy.Ovpn.Parse.{scan_lines}

abbrev pub resolved_port : Scan → RawRemote → ℤ
resolved_port s r =
    if not r.has_explicit_port || not (ltb_ℤ (pos 0) r.port)
    then if ltb_ℤ (pos 0) s.global_port then s.global_port else pos 1194
    else r.port

abbrev pub is_known_proto : Chars → Bool
is_known_proto p = (p == chars "udp") || (p == chars "tcp")

abbrev pub with_endpoints :
    List OpenVpnEndpoint → OpenVpnEndpoint → Scan → SafeOpenVpnConfig × OpenVpnConfigMeta
with_endpoints es first s = (
  record s.safe_cfg {
    endpoints = es;
    primary_endpoint = some first;
    protocol = if no_chars s.safe_cfg.protocol then first.proto else s.safe_cfg.protocol;
  },
  record s.meta { endpoints = es; primary_endpoint = some first },
)

unfoldable pub choose_endpoints :
    List OpenVpnEndpoint → Scan → Try (SafeOpenVpnConfig × OpenVpnConfigMeta)
choose_endpoints [] s = failed no_valid_remote
choose_endpoints (first ∷ rest) s = ok (with_endpoints (first ∷ rest) first s)

module _ (lib : Library) where
  abbrev pub resolved_proto : Scan → RawRemote → Chars
  resolved_proto s r =
      if not (no_chars r.raw_proto)
      then normalize_proto lib.unicode r.raw_proto
      else if not (no_chars s.global_proto)
      then s.global_proto
      else chars "udp"

  -- The body of the loop over the remotes: `none` where it continues with the next one. An explicit
  -- protocol that is not known normalizes to the empty text, which no protocol is.
  unfoldable pub resolve : Scan → RawRemote → Option OpenVpnEndpoint
  unfolding validate_host is_valid_port normalize_proto chars
  resolve s r =
      if not (validate_host lib.unicode lib.is_ip r.host)
      then none
      else if r.has_explicit_port && not (is_valid_port r.port)
      then none
      else if not (is_valid_port (resolved_port s r))
      then none
      else if not (is_known_proto (resolved_proto s r))
      then none
      else some (record { host = r.host; port = resolved_port s r; proto = resolved_proto s r })

  unfoldable pub resolve_all : Scan → List RawRemote → List OpenVpnEndpoint
  unfolding resolve
  resolve_all s [] = []
  resolve_all s (r ∷ rs) =
      let rest = resolve_all s rs in elim (resolve s r) [ none ↦ rest | some e ↦ e ∷ rest ]

  unfoldable pub finish_scan : Bool → Try Scan → Try (SafeOpenVpnConfig × OpenVpnConfigMeta)
  unfolding resolve_all choose_endpoints
  finish_scan too_long (failed e) = failed e
  finish_scan too_long (ok s) =
      if too_long then failed read_error else choose_endpoints (resolve_all s s.raw_remotes) s

  unfoldable pub parse_text : Chars → Try (SafeOpenVpnConfig × OpenVpnConfigMeta)
  unfolding trim_space_chars scan_tokens split_lines scan_lines finish_scan initial_scan
  parse_text raw =
      let tokens = scan_tokens (split_lines raw) in
      if no_chars (trim_space_chars raw)
      then failed empty_config
      else finish_scan tokens.1 (scan_lines lib tokens.0 initial_scan)

  abbrev pub decoded : Chars → Option Chars
  decoded trimmed = elim (lib.decode_std trimmed) [
    | some text ↦ some text
    | none ↦ lib.decode_raw trimmed
  ]

  -- ParseSafeOpenVPNConfig, but for the configuration that is then written.
  unfoldable pub parse_safe_config : Chars → Try (SafeOpenVpnConfig × OpenVpnConfigMeta)
  unfolding trim_space_chars parse_text
  parse_safe_config b64 =
      let trimmed = trim_space_chars b64 in
      if no_chars trimmed
      then failed empty_data
      else elim (decoded trimmed) [ none ↦ failed not_base64 | some raw ↦ parse_text raw ]
