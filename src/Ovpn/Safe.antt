-- ===== src/Ovpn/Safe.antt =====
-- What ParseSafeOpenVPNConfig of internal/discovery/vpngate_ovpn.go promises of a configuration that it
-- returns, whatever an untrusted node has sent.
use super_proxy.Base.{
  ℕ, ◌≡◌, refl, sym, ◌∙◌, ap, Bool, true, false, ◌&&◌, not, Option, none, some, List, [], ◌∷◌,
  if◌then◌else◌, All, nat_eq, Bool-cases, inl, inr, arith, if_either, subst, ◌==◌, ltb,
}
use super_proxy.Ovpn.Strings.{
  Chars, chars, every, chars_eq, chars_beq_iff, is_control, no_chars, trim_space_chars, scan_tokens,
  split_lines, byte_length, max_scan_token_size,
}
use super_proxy.Ovpn.Checks.{is_host_rune, is_valid_port, validate_host}
use super_proxy.Ovpn.Config.{
  Library, OpenVpnEndpoint, OpenVpnConfigMeta, SafeOpenVpnConfig, RawRemote, Scan, Try, failed, ok,
  initial_scan, not_base64,
}
use super_proxy.Ovpn.Parse.{scan_lines}
use super_proxy.Ovpn.Resolve.{
  resolved_port, resolved_proto, is_known_proto, resolve, resolve_all, choose_endpoints,
  finish_scan, parse_text, decoded, parse_safe_config,
}
use super_proxy.Ovpn.Generate.{generate_safe_config, parse_safe_openvpn_config, with_config}
use super_proxy.Ovpn.Lines.{in_line, is_line, every_weaken, every-drop_cr, split_lines-lines}
use super_proxy.Ovpn.Reader.{all_safe, read_directives}
use super_proxy.Ovpn.Canonical.{IsCleanConfig, IsCleanEndpoint, generate_safe_config-IsSafe}
use super_proxy.Ovpn.Accepted.{IsCleanScan, IfOk, clean_values}
use super_proxy.Ovpn.Scanned.{scan_lines-IsClean, initial_scan-IsClean}

-- An endpoint whose host, port and protocol were checked.
abbrev pub IsEndpoint : Library → OpenVpnEndpoint → Type 0
IsEndpoint lib e =
    (validate_host lib.unicode lib.is_ip e.host ≡ true)
    × (is_valid_port e.port ≡ true)
    × (is_known_proto e.proto ≡ true)

abbrev IfSome : (OpenVpnEndpoint → Type 0) → Option OpenVpnEndpoint → Type 0
IfSome P none = Unit
IfSome P (some e) = P e

guarded :
    (P : OpenVpnEndpoint → Type 0) (b : Bool) (o : Option OpenVpnEndpoint)
    → (b ≡ true → IfSome P o)
    → IfSome P (if not b then none else o)
guarded P true o h = h refl
guarded P false o h = tt

host_rune-in_line : (c : ℕ) → is_host_rune c ≡ true → in_line c ≡ true
unfolding is_control
host_rune-in_line c h = ground arith

tokens-lines :
    (ls : List Chars)
    → All (λ l. is_line l ≡ true) ls
    → All (λ l. is_line l ≡ true) (scan_tokens ls).0
unfolding scan_tokens
tokens-lines [] h = tt
tokens-lines (l ∷ ls) (h, hs) = elim (Bool-cases (ltb (byte_length l) max_scan_token_size)) [
  | inl p ↦ rw p (every-drop_cr in_line l h, tokens-lines ls hs)
  | inr p ↦ rw p tt
]

module _ (lib : Library) where
  resolve-IsEndpoint : (s : Scan) (r : RawRemote) → IfSome (IsEndpoint lib) (resolve lib s r)
  unfolding resolve
  resolve-IsEndpoint s r =
      guarded (IsEndpoint lib) (validate_host lib.unicode lib.is_ip r.host) _ (λ hh.
        if_either (IfSome (IsEndpoint lib)) (r.has_explicit_port && not (is_valid_port r.port)) tt (
          guarded (IsEndpoint lib) (is_valid_port (resolved_port s r)) _ (λ hp.
            guarded (IsEndpoint lib) (is_known_proto (resolved_proto lib s r)) _
              (λ hk. (hh, hp, hk)))))

  resolved-cons :
      (o : Option OpenVpnEndpoint) (es : List OpenVpnEndpoint)
      → IfSome (IsEndpoint lib) o
      → All (IsEndpoint lib) es
      → All (IsEndpoint lib) (elim o [ none ↦ es | some e ↦ e ∷ es ])
  resolved-cons none es h hs = hs
  resolved-cons (some e) es h hs = (h, hs)

  resolve_all-AreEndpoints :
      (s : Scan) (rs : List RawRemote) → All (IsEndpoint lib) (resolve_all lib s rs)
  unfolding resolve_all
  resolve_all-AreEndpoints s [] = tt
  resolve_all-AreEndpoints s (r ∷ rs) =
      resolved-cons (resolve lib s r) (resolve_all lib s rs) (resolve-IsEndpoint s r)
        (resolve_all-AreEndpoints s rs)

  -- The parts of the result agree, and its endpoints were all checked; the first is the primary one.
  abbrev pub IsAccepted : SafeOpenVpnConfig × OpenVpnConfigMeta → Type 0
  IsAccepted (cfg, meta) =
      (first : OpenVpnEndpoint) × (rest : List OpenVpnEndpoint) × (cfg.endpoints ≡ first ∷ rest)
      × (meta.endpoints ≡ first ∷ rest)
      × (cfg.primary_endpoint ≡ some first)
      × (meta.primary_endpoint ≡ some first)
      × All (IsEndpoint lib) (first ∷ rest)

  abbrev IsResult : SafeOpenVpnConfig × OpenVpnConfigMeta → Type 0
  IsResult r = IsCleanConfig r.0 × IsAccepted r

  endpoint-IsClean : (e : OpenVpnEndpoint) → IsEndpoint lib e → IsCleanEndpoint e
  unfolding validate_host
  endpoint-IsClean e h =
      every_weaken in_line is_host_rune host_rune-in_line e.host (ground (arith, h.0))

  endpoints-AreClean :
      (es : List OpenVpnEndpoint) → All (IsEndpoint lib) es → All IsCleanEndpoint es
  endpoints-AreClean [] h = tt
  endpoints-AreClean (e ∷ es) (h, hs) = (endpoint-IsClean e h, endpoints-AreClean es hs)

  clean_endpoints :
      (cfg : SafeOpenVpnConfig) (meta : OpenVpnConfigMeta)
      → IsAccepted (cfg, meta)
      → All IsCleanEndpoint cfg.endpoints
  clean_endpoints cfg meta (first, rest, es, e1, e2, e3, h) =
      subst (λ l. All IsCleanEndpoint l) (sym es) (endpoints-AreClean (first ∷ rest) h)

  known_proto-line : (p : Chars) → is_known_proto p ≡ true → is_line p ≡ true
  unfolding chars every
  known_proto-line p h = elim (Bool-cases (p == chars "udp")) [
    | inl udp ↦ subst (λ t. is_line t ≡ true) (sym ((chars_beq_iff p (chars "udp")).0 udp)) refl
    | inr other ↦
        let tcp : (p == chars "tcp") ≡ true = ground (arith, h, other) in
        subst (λ t. is_line t ≡ true) (sym ((chars_beq_iff p (chars "tcp")).0 tcp)) refl
  ]

  choose_endpoints-IsResult :
      (es : List OpenVpnEndpoint) (s : Scan)
      → IsCleanScan s
      → All (IsEndpoint lib) es
      → IfOk IsResult (choose_endpoints es s)
  unfolding choose_endpoints clean_values
  choose_endpoints-IsResult [] s h he = tt
  choose_endpoints-IsResult (e ∷ es) s h he = (
    record {
      protocol =
          if_either (λ (t : Chars). is_line t ≡ true) (no_chars s.safe_cfg.protocol)
            (known_proto-line e.proto he.0.2) (ground (arith, h.values));
      dev = ground (arith, h.values);
      cipher = ground (arith, h.values);
      data_ciphers = ground (arith, h.values);
      auth = ground (arith, h.values);
      remote_cert_tls = ground (arith, h.values);
      verify_x509_name = ground (arith, h.values);
      tls_version_min = ground (arith, h.values);
      inline_ca = h.ca;
      inline_cert = h.cert;
      inline_key = h.key;
    },
    (e, es, refl, refl, refl, refl, he),
  )

  module _ (hl : lib.unicode.is_letter 60 ≡ false) (hd : lib.unicode.is_digit 60 ≡ false) where
    finish_scan-IsResult :
        (too_long : Bool) (t : Try Scan)
        → IfOk IsCleanScan t
        → IfOk IsResult (finish_scan lib too_long t)
    unfolding finish_scan
    finish_scan-IsResult too_long (failed e) h = tt
    finish_scan-IsResult too_long (ok s) h = if_either (IfOk IsResult) too_long tt (
        choose_endpoints-IsResult (resolve_all lib s s.raw_remotes) s h
          (resolve_all-AreEndpoints s s.raw_remotes))

    parse_text-IsResult : (raw : Chars) → IfOk IsResult (parse_text lib raw)
    unfolding parse_text
    parse_text-IsResult raw =
        let tokens = scan_tokens (split_lines raw) in
        if_either (IfOk IsResult) (no_chars (trim_space_chars raw)) tt (
          finish_scan-IsResult tokens.1 (scan_lines lib tokens.0 initial_scan) (
            scan_lines-IsClean lib hl hd tokens.0 initial_scan
              (tokens-lines (split_lines raw) (split_lines-lines raw)) initial_scan-IsClean))

    decoded-IsResult :
        (o : Option Chars)
        → IfOk IsResult (elim o [ none ↦ failed not_base64 | some raw ↦ parse_text lib raw ])
    decoded-IsResult none = tt
    decoded-IsResult (some raw) = parse_text-IsResult raw

    parse_safe_config-IsResult : (b64 : Chars) → IfOk IsResult (parse_safe_config lib b64)
    unfolding parse_safe_config
    parse_safe_config-IsResult b64 =
        if_either (IfOk IsResult) (no_chars (trim_space_chars b64)) tt
          (decoded-IsResult (decoded lib (trim_space_chars b64)))

abbrev value_or {ℓ} : {A : Type ℓ} → Try A → A → A
value_or (failed e) a = a
value_or (ok b) a = b

-- The text that goes with a result is the one written from it.
with_config-text :
    (lib : Library) (t : Try (SafeOpenVpnConfig × OpenVpnConfigMeta)) (cfg : SafeOpenVpnConfig)
    (meta : OpenVpnConfigMeta) (text : Chars)
    → IfOk (IsResult lib) t
    → with_config t ≡ ok (cfg, meta, text)
    → (text ≡ generate_safe_config cfg) × IsResult lib (cfg, meta)
with_config-text lib (failed e) cfg meta text h same = ground (arith, same)
with_config-text lib (ok (c, m)) cfg meta text h same =
    subst (λ r. (r.2 ≡ generate_safe_config r.0) × IsResult lib (r.0, r.1))
      (ap (λ t. value_or t (c, m, generate_safe_config c)) same) (refl, h)

module _ (lib : Library) (hl : lib.unicode.is_letter 60 ≡ false)
    (hd : lib.unicode.is_digit 60 ≡ false) (b64 : Chars) (cfg : SafeOpenVpnConfig)
    (meta : OpenVpnConfigMeta) (text : Chars)
    (accepted : parse_safe_openvpn_config lib b64 ≡ ok (cfg, meta, text)) where
  result : (text ≡ generate_safe_config cfg) × IsResult lib (cfg, meta)
  unfolding parse_safe_openvpn_config
  result =
      with_config-text lib (parse_safe_config lib b64) cfg meta text
        (parse_safe_config-IsResult lib hl hd b64) accepted

  -- Of an accepted configuration, whatever base64 text it came from, every line of the written
  -- configuration that OpenVPN reads as a directive, which is each line outside of the inline blocks, is
  -- named by one of the fixed canonical words, and by none of the disallowed directives. So no value or
  -- certificate of the input can smuggle in a directive. It is assumed of Go's Unicode tables that `<`
  -- is neither a letter nor a digit.
  pub parse_safe_openvpn_config-IsSafe : all_safe (read_directives false (split_lines text)) ≡ true
  parse_safe_openvpn_config-IsSafe =
      ap (λ t. all_safe (read_directives false (split_lines t))) result.0
      ∙ generate_safe_config-IsSafe cfg result.1.0 (clean_endpoints lib cfg meta result.1.1)

  -- An accepted configuration has an endpoint. Its endpoints and those of the metadata are the same, the
  -- first is the primary one of both, and each has a host that passes validateHost, a port from 1 to
  -- 65535 and the protocol "udp" or "tcp".
  pub parse_safe_openvpn_config-IsAccepted : IsAccepted lib (cfg, meta)
  parse_safe_openvpn_config-IsAccepted = result.1.1
