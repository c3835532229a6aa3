-- ===== src/Ovpn/Canonical.antt =====
-- The configuration that GenerateSafeOpenVPNConfig of internal/discovery/vpngate_ovpn.go writes from
-- clean values is read as harmless directives.
use Prim.Native.String.{String}
use super_proxy.Base.{◌≡◌, refl, true, false, List, [], ◌∷◌, All, Bool-cases, inl, inr}
use super_proxy.Ovpn.Strings.{
  Chars, chars, chars_beq, every, no_chars, has_prefix, format_int, split_lines,
}
use super_proxy.Ovpn.Config.{OpenVpnEndpoint, SafeOpenVpnConfig}
use super_proxy.Ovpn.Generate.{
  directive_line, optional, dev_line, proto_line, remote_line, remote_lines, directive_lines,
  inline_lines, generate_safe_config,
}
use super_proxy.Ovpn.Lines.{is_line, in_line, every-append, format_int-line}
use super_proxy.Ovpn.Reader.{
  IsInline, opens_block, is_safe_directive, is_safe_output, is_safe_output-directive, all_safe,
  read_directives,
}
use super_proxy.Ovpn.Blocks.{trimmed_block-IsSafe}

-- The values stand on one line each, and the blocks cannot be closed from within.
pub record IsCleanConfig (cfg : SafeOpenVpnConfig) : Type 0 where
  pub protocol : is_line cfg.protocol ≡ true
  pub dev : is_line cfg.dev ≡ true
  pub cipher : is_line cfg.cipher ≡ true
  pub data_ciphers : is_line cfg.data_ciphers ≡ true
  pub auth : is_line cfg.auth ≡ true
  pub remote_cert_tls : is_line cfg.remote_cert_tls ≡ true
  pub verify_x509_name : is_line cfg.verify_x509_name ≡ true
  pub tls_version_min : is_line cfg.tls_version_min ≡ true
  pub inline_ca : IsInline cfg.inline_ca
  pub inline_cert : IsInline cfg.inline_cert
  pub inline_key : IsInline cfg.inline_key

abbrev pub IsCleanEndpoint : OpenVpnEndpoint → Type 0
IsCleanEndpoint e = is_line e.host ≡ true

-- A directive that OpenVPN reads as such, whatever stands after its name.
abbrev Harmless : Chars → Type 0
Harmless l = (opens_block l ≡ false) × (is_safe_directive l ≡ true)

optional-IsSafe :
    (name : String) (value : Chars) (rest : List Chars)
    → Harmless (directive_line name value)
    → is_line (directive_line name value) ≡ true
    → is_safe_output false rest ≡ true
    → is_safe_output false (optional name value rest) ≡ true
optional-IsSafe name value rest h hl hr = elim (Bool-cases (no_chars value)) [
  | inl p ↦ rw p hr
  | inr p ↦ rw p (is_safe_output-directive (directive_line name value) rest hl h.0 h.1 hr)
]

remote_line-line : (e : OpenVpnEndpoint) → is_line e.host ≡ true → is_line (remote_line e) ≡ true
unfolding remote_line every chars
remote_line-line e h =
    every-append in_line e.host (32 ∷ format_int e.port) h (format_int-line e.port)

remote_line-Harmless : (e : OpenVpnEndpoint) → Harmless (remote_line e)
unfolding remote_line is_safe_directive chars_beq has_prefix chars
remote_line-Harmless e = (refl, refl)

remote_lines-IsSafe :
    (es : List OpenVpnEndpoint) (rest : List Chars)
    → All IsCleanEndpoint es
    → is_safe_output false rest ≡ true
    → is_safe_output false (remote_lines es rest) ≡ true
remote_lines-IsSafe [] rest h hr = hr
remote_lines-IsSafe (e ∷ es) rest (h, hs) hr =
    is_safe_output-directive (remote_line e) (remote_lines es rest) (remote_line-line e h)
      (remote_line-Harmless e).0 (remote_line-Harmless e).1 (remote_lines-IsSafe es rest hs hr)

dev_line-IsSafe :
    (dev : Chars) (rest : List Chars)
    → is_line dev ≡ true
    → is_safe_output false rest ≡ true
    → is_safe_output false (dev_line dev ∷ rest) ≡ true
unfolding is_safe_directive chars_beq has_prefix chars every
dev_line-IsSafe dev rest h hr = elim (Bool-cases (no_chars dev)) [
  | inl p ↦
      rw p (is_safe_output-directive (directive_line "dev" (chars "tun")) rest refl refl refl hr)
  | inr p ↦ rw p (is_safe_output-directive (directive_line "dev" dev) rest h refl refl hr)
]

proto_line-IsSafe :
    (proto : Chars) (rest : List Chars)
    → is_line proto ≡ true
    → is_safe_output false rest ≡ true
    → is_safe_output false (proto_line proto ∷ rest) ≡ true
unfolding is_safe_directive chars_beq has_prefix chars every
proto_line-IsSafe proto rest h hr = elim (Bool-cases (no_chars proto)) [
  | inl p ↦
      rw p (is_safe_output-directive (directive_line "proto" (chars "udp")) rest refl refl refl hr)
  | inr p ↦ rw p (is_safe_output-directive (directive_line "proto" proto) rest h refl refl hr)
]

options-IsSafe :
    (cfg : SafeOpenVpnConfig) (rest : List Chars)
    → IsCleanConfig cfg
    → is_safe_output false rest ≡ true
    → is_safe_output false (
        optional "cipher" cfg.cipher (
          optional "data-ciphers" cfg.data_ciphers (
            optional "auth" cfg.auth (
              optional "remote-cert-tls" cfg.remote_cert_tls (
                optional "verify-x509-name" cfg.verify_x509_name
                  (optional "tls-version-min" cfg.tls_version_min rest))))))
      ≡ true
unfolding is_safe_directive chars_beq has_prefix chars every
options-IsSafe cfg rest h hr =
    optional-IsSafe "cipher" cfg.cipher _ (refl, refl) h.cipher
      (optional-IsSafe "data-ciphers" cfg.data_ciphers _ (refl, refl) h.data_ciphers
        (optional-IsSafe "auth" cfg.auth _ (refl, refl) h.auth
          (optional-IsSafe "remote-cert-tls" cfg.remote_cert_tls _ (refl, refl) h.remote_cert_tls
            (optional-IsSafe "verify-x509-name" cfg.verify_x509_name _ (refl, refl)
              h.verify_x509_name
              (optional-IsSafe "tls-version-min" cfg.tls_version_min _ (refl, refl)
                h.tls_version_min hr)))))

plain_line-IsSafe :
    (l : Chars) (rest : List Chars)
    → is_line l ≡ true
    → Harmless l
    → is_safe_output false rest ≡ true
    → is_safe_output false (l ∷ rest) ≡ true
plain_line-IsSafe l rest hl h hr = is_safe_output-directive l rest hl h.0 h.1 hr

nothing_written : is_safe_output false [] ≡ true
unfolding is_safe_output
nothing_written = refl

inline_lines-IsSafe :
    (cfg : SafeOpenVpnConfig) → IsCleanConfig cfg → is_safe_output false (inline_lines cfg) ≡ true
unfolding inline_lines chars has_prefix every
inline_lines-IsSafe cfg h =
    trimmed_block-IsSafe (chars "<ca>") (chars "</ca>") cfg.inline_ca _ refl refl refl refl
      h.inline_ca
      (trimmed_block-IsSafe (chars "<cert>") (chars "</cert>") cfg.inline_cert _ refl refl refl refl
        h.inline_cert
        (trimmed_block-IsSafe (chars "<key>") (chars "</key>") cfg.inline_key [] refl refl refl refl
          h.inline_key nothing_written))

directive_lines-IsSafe :
    (cfg : SafeOpenVpnConfig) (rest : List Chars)
    → IsCleanConfig cfg
    → All IsCleanEndpoint cfg.endpoints
    → is_safe_output false rest ≡ true
    → is_safe_output false (directive_lines cfg rest) ≡ true
unfolding directive_lines is_safe_directive chars_beq has_prefix chars every
directive_lines-IsSafe cfg rest h he hr =
    plain_line-IsSafe (chars "client") _ refl (refl, refl)
      (dev_line-IsSafe cfg.dev _ h.dev (
        plain_line-IsSafe (chars "dev-type tun") _ refl (refl, refl)
          (proto_line-IsSafe cfg.protocol _ h.protocol (
            remote_lines-IsSafe cfg.endpoints _ he (
              plain_line-IsSafe (chars "nobind") _ refl (refl, refl)
                (plain_line-IsSafe (chars "route-nopull") _ refl (refl, refl)
                  (options-IsSafe cfg rest h hr)))))))

pub generate_safe_config-IsSafe :
    (cfg : SafeOpenVpnConfig)
    → IsCleanConfig cfg
    → All IsCleanEndpoint cfg.endpoints
    → all_safe (read_directives false (split_lines (generate_safe_config cfg))) ≡ true
unfolding generate_safe_config is_safe_output is_safe_directive chars_beq has_prefix chars every
generate_safe_config-IsSafe cfg h he =
    plain_line-IsSafe (chars "# Super-Proxy Safe Generated OpenVPN Configuration")
      (directive_lines cfg (inline_lines cfg)) refl (refl, refl)
      (directive_lines-IsSafe cfg (inline_lines cfg) h he (inline_lines-IsSafe cfg h))
