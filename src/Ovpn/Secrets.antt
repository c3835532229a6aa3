-- ===== src/Ovpn/Secrets.antt =====
-- What GenerateSanitizedOpenVPNConfig of internal/discovery/vpngate_ovpn.go shows of a configuration.
use super_proxy.Base.{◌≡◌, refl}
use super_proxy.Ovpn.Strings.{Chars, no_chars}
use super_proxy.Ovpn.Config.{SafeOpenVpnConfig}
use super_proxy.Ovpn.Generate.{directive_lines, generate_sanitized_config}

-- A configuration with other certificates and another key.
abbrev pub with_secrets : Chars → Chars → Chars → SafeOpenVpnConfig → SafeOpenVpnConfig
with_secrets ca cert key cfg = record cfg { inline_ca = ca; inline_cert = cert; inline_key = key }

-- The sanitized configuration depends on the certificates and the key only by whether they are there:
-- two configurations that differ in nothing else, and have the same blocks, are shown as the same text.
pub sanitized_hides_secrets :
    (cfg : SafeOpenVpnConfig) (ca cert key : Chars)
    → no_chars ca ≡ no_chars cfg.inline_ca
    → no_chars cert ≡ no_chars cfg.inline_cert
    → no_chars key ≡ no_chars cfg.inline_key
    → generate_sanitized_config (with_secrets ca cert key cfg) ≡ generate_sanitized_config cfg
unfolding generate_sanitized_config directive_lines
sanitized_hides_secrets cfg ca cert key ha hc hk = rw (ha, hc, hk) refl
