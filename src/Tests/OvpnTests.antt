-- ===== src/Tests/OvpnTests.antt =====
-- The OpenVPN configurations of internal/discovery/vpngate_ovpn.go at concrete inputs.
use super_proxy.Base.{
  ℕ, true, false, ◌≡◌, refl, some, none, leb, ◌&&◌, ◌||◌, ◌+◌, ◌++◌, [], ◌∷◌, if◌then◌else◌,
}
use super_proxy.Base.Int.{pos}
use super_proxy.Ovpn.Strings.{
  Chars, Unicode, chars, chars_beq, every, trim_left, trim_right, is_space, drop_cr, split_lines,
}
use super_proxy.Ovpn.Checks.{to_lower_chars, validate_host, is_valid_port}
use super_proxy.Ovpn.Config.{
  Library, OpenVpnEndpoint, OpenVpnConfigMeta, SafeOpenVpnConfig, Scan, failed, ok, disallowed,
  initial_config, blank_meta, initial_scan,
}
use super_proxy.Ovpn.Parse.{scan_lines}
use super_proxy.Ovpn.Resolve.{resolve_all}
use super_proxy.Ovpn.Generate.{parse_safe_openvpn_config, generate_sanitized_config, remote_lines}
use super_proxy.Ovpn.Reader.{all_safe, read_directives}
use super_proxy.Ovpn.Safe.{
  IsAccepted, parse_safe_openvpn_config-IsSafe, parse_safe_openvpn_config-IsAccepted,
}
use super_proxy.Ovpn.Secrets.{with_secrets, sanitized_hides_secrets}
use super_proxy.Ovpn.RoundTrip.{with_proto, endpoints_round_trip}

abbrev ascii_lower : ℕ → ℕ
ascii_lower c = if leb 65 c && leb c 90 then c + 32 else c

-- The tables of Go, for ASCII.
abbrev pub ascii : Unicode
ascii = record {
  is_letter = λ c. (leb 65 c && leb c 90) || (leb 97 c && leb c 122);
  is_digit = λ c. leb 48 c && leb c 57;
  lower_rune = ascii_lower;
  fold_rune = ascii_lower;
}

-- The input is taken as it is, and no text is an address.
abbrev pub plain : Library
plain = record {
  unicode = ascii;
  decode_std = λ text. some text;
  decode_raw = λ text. none;
  is_ip = λ text. false;
}

unfoldable ovpn_input : Chars
unfolding chars
ovpn_input =
    chars
      "client\nproto udp\nremote vpn.example.org 443 tcp\ncipher AES-128-CBC\n<ca>\nQUJD\n</ca>\n"

abbrev tcp_endpoint : OpenVpnEndpoint
tcp_endpoint = record { host = chars "vpn.example.org"; port = pos 443; proto = chars "tcp" }

abbrev ovpn_config : SafeOpenVpnConfig
ovpn_config = record initial_config {
  protocol = chars "udp";
  endpoints = tcp_endpoint ∷ [];
  primary_endpoint = some tcp_endpoint;
  cipher = chars "AES-128-CBC";
  inline_ca = chars "QUJD\n";
}

abbrev ovpn_meta : OpenVpnConfigMeta
ovpn_meta = record blank_meta {
  endpoints = tcp_endpoint ∷ [];
  primary_endpoint = some tcp_endpoint;
  cipher = chars "AES-128-CBC";
}

-- The canonical configuration names the port of the remote, but not its protocol.
unfoldable ovpn_output : Chars
unfolding chars
ovpn_output =
    chars "# Super-Proxy Safe Generated OpenVPN Configuration\nclient\ndev tun\n"
    ++ chars "dev-type tun\nproto udp\nremote vpn.example.org 443\nnobind\nroute-nopull\n"
    ++ chars "cipher AES-128-CBC\n<ca>\nQUJD\n</ca>\n"

ovpn_accepted :
    parse_safe_openvpn_config plain ovpn_input ≡ ok (ovpn_config, ovpn_meta, ovpn_output)
unfolding parse_safe_openvpn_config ovpn_input ovpn_output chars trim_right trim_left is_space
    drop_cr chars_beq
ovpn_accepted = refl

-- A disallowed directive ends the parse.
up_rejected :
    parse_safe_openvpn_config plain (chars "client\nup evil.sh\nremote vpn.example.org 443\n")
    ≡ failed (disallowed (chars "up"))
unfolding parse_safe_openvpn_config chars trim_right trim_left is_space drop_cr chars_beq
up_rejected = refl

parse_safe_openvpn_config-IsSafe_example :
    all_safe (read_directives false (split_lines ovpn_output)) ≡ true
parse_safe_openvpn_config-IsSafe_example =
    parse_safe_openvpn_config-IsSafe plain refl refl ovpn_input ovpn_config ovpn_meta ovpn_output
      ovpn_accepted

parse_safe_openvpn_config-IsAccepted_example : IsAccepted plain (ovpn_config, ovpn_meta)
parse_safe_openvpn_config-IsAccepted_example =
    parse_safe_openvpn_config-IsAccepted plain refl refl ovpn_input ovpn_config ovpn_meta
      ovpn_output ovpn_accepted

sanitized_hides_secrets_example :
    generate_sanitized_config (with_secrets (chars "other") [] [] ovpn_config)
    ≡ generate_sanitized_config ovpn_config
unfolding chars
sanitized_hides_secrets_example =
    sanitized_hides_secrets ovpn_config (chars "other") [] [] refl refl refl

-- Read before any `proto` line: the endpoint comes back with "udp".
endpoints_round_trip_example :
    (t : Scan) × (scan_lines plain (remote_lines (tcp_endpoint ∷ []) []) initial_scan ≡ ok t)
    × (resolve_all plain t t.raw_remotes ≡ with_proto (chars "udp") tcp_endpoint ∷ [])
unfolding chars every is_space initial_scan chars_beq validate_host is_valid_port to_lower_chars
endpoints_round_trip_example =
    endpoints_round_trip plain (tcp_endpoint ∷ []) initial_scan refl
      (((refl, refl, refl), refl), tt) refl refl refl
