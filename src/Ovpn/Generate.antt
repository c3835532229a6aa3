-- ===== src/Ovpn/Generate.antt =====
-- GenerateSafeOpenVPNConfig, GenerateSanitizedOpenVPNConfig and ParseOpenVPNConfig of
-- internal/discovery/vpngate_ovpn.go. Each text that is written ends its line, so the output is
-- `unlines` of the texts in the order they are written.
use Prim.Native.String.{String}
use super_proxy.Base.{List, [], ◌∷◌, ◌++◌, if◌then◌else◌}
use super_proxy.Ovpn.Strings.{Chars, chars, no_chars, trim_space_chars, unlines, format_int}
use super_proxy.Ovpn.Config.{
  Library, OpenVpnEndpoint, OpenVpnConfigMeta, SafeOpenVpnConfig, Try, failed, ok,
}
use super_proxy.Ovpn.Resolve.{parse_safe_config}

abbrev pub directive_line : String → Chars → Chars
directive_line name value = chars name ++ (32 ∷ value)

-- A directive that is written unless its value is empty.
abbrev pub optional : String → Chars → List Chars → List Chars
optional name value rest = if no_chars value then rest else directive_line name value ∷ rest

abbrev pub dev_line : Chars → Chars
dev_line dev = if no_chars dev then directive_line "dev" (chars "tun") else directive_line "dev" dev

abbrev pub proto_line : Chars → Chars
proto_line proto =
    if no_chars proto then directive_line "proto" (chars "udp") else directive_line "proto" proto

unfoldable pub remote_line : OpenVpnEndpoint → Chars
unfolding format_int chars
remote_line e = directive_line "remote" (e.host ++ (32 ∷ format_int e.port))

abbrev pub remote_lines : List OpenVpnEndpoint → List Chars → List Chars
remote_lines [] rest = rest
remote_lines (e ∷ es) rest = remote_line e ∷ remote_lines es rest

abbrev pub inline_block : String → String → Chars → Chars → List Chars → List Chars
inline_block opening closing content shown rest =
    if no_chars content then rest else chars opening ∷ shown ∷ chars closing ∷ rest

-- The lines that both configurations have after their title.
unfoldable pub directive_lines : SafeOpenVpnConfig → List Chars → List Chars
unfolding chars remote_line
directive_lines cfg rest =
    chars "client"
    ∷ dev_line cfg.dev
    ∷ chars "dev-type tun"
    ∷ proto_line cfg.protocol
    ∷ remote_lines cfg.endpoints (
        chars "nobind"
        ∷ chars "route-nopull"
        ∷ optional "cipher" cfg.cipher (
            optional "data-ciphers" cfg.data_ciphers (
              optional "auth" cfg.auth (
                optional "remote-cert-tls" cfg.remote_cert_tls (
                  optional "verify-x509-name" cfg.verify_x509_name
                    (optional "tls-version-min" cfg.tls_version_min rest))))))

abbrev pub trimmed_block : String → String → Chars → List Chars → List Chars
trimmed_block opening closing content rest =
    inline_block opening closing content (trim_space_chars content) rest

unfoldable pub inline_lines : SafeOpenVpnConfig → List Chars
unfolding chars trim_space_chars
inline_lines cfg = trimmed_block "<ca>" "</ca>" cfg.inline_ca (
    trimmed_block "<cert>" "</cert>" cfg.inline_cert
      (trimmed_block "<key>" "</key>" cfg.inline_key []))

-- GenerateSafeOpenVPNConfig
unfoldable pub generate_safe_config : SafeOpenVpnConfig → Chars
unfolding chars unlines directive_lines inline_lines
generate_safe_config cfg = unlines (
    chars "# Super-Proxy Safe Generated OpenVPN Configuration"
    ∷ directive_lines cfg (inline_lines cfg))

-- GenerateSanitizedOpenVPNConfig
unfoldable pub generate_sanitized_config : SafeOpenVpnConfig → Chars
unfolding chars unlines directive_lines
generate_sanitized_config cfg = unlines (
    chars "# Super-Proxy Sanitized OpenVPN Configuration Template"
    ∷ directive_lines cfg (
        inline_block "<ca>" "</ca>" cfg.inline_ca (chars "[CA CERTIFICATE REDACTED]") (
          inline_block "<cert>" "</cert>" cfg.inline_cert (chars "[CLIENT CERTIFICATE REDACTED]")
            (inline_block "<key>" "</key>" cfg.inline_key (chars "[PRIVATE KEY REDACTED]") []))))

abbrev pub with_config :
    Try (SafeOpenVpnConfig × OpenVpnConfigMeta)
    → Try (SafeOpenVpnConfig × OpenVpnConfigMeta × Chars)
with_config (failed e) = failed e
with_config (ok (cfg, meta)) = ok (cfg, meta, generate_safe_config cfg)

-- ParseSafeOpenVPNConfig
unfoldable pub parse_safe_openvpn_config :
    Library → Chars → Try (SafeOpenVpnConfig × OpenVpnConfigMeta × Chars)
unfolding parse_safe_config generate_safe_config
parse_safe_openvpn_config lib b64 = with_config (parse_safe_config lib b64)

abbrev pub without_config :
    Try (SafeOpenVpnConfig × OpenVpnConfigMeta × Chars) → Try (Chars × OpenVpnConfigMeta)
without_config (failed e) = failed e
without_config (ok (cfg, meta, text)) = ok (text, meta)

-- ParseOpenVPNConfig
unfoldable pub parse_openvpn_config : Library → Chars → Try (Chars × OpenVpnConfigMeta)
unfolding parse_safe_openvpn_config
parse_openvpn_config lib b64 = without_config (parse_safe_openvpn_config lib b64)
