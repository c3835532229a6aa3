-- ===== src/Ovpn/Accepted.antt =====
-- What the scan of ParseSafeOpenVPNConfig in internal/discovery/vpngate_ovpn.go has accepted so far
-- stands on one line each, and the blocks hold no line that could close them.
use super_proxy.Base.{
  ℕ, ◌≡◌, refl, ◌∙◌, Bool, true, false, ◌&&◌, Option, none, some, List, ◌∷◌, ◌==◌, nat_eq,
  if_either, arith,
}
use super_proxy.Base.Int.{ℤ}
use super_proxy.Ovpn.Strings.{
  Chars, chars, chars_eq, every, keep, trim_space_chars, is_space, is_control, no_chars, has_prefix,
  atoi, join_args,
}
use super_proxy.Ovpn.Checks.{
  is_safe_rune, sanitize_safe_string, normalize_proto, proto_named, is_valid_port, to_lower_chars,
}
use super_proxy.Ovpn.Config.{Library, SafeOpenVpnConfig, Scan, Try, failed, ok}
use super_proxy.Ovpn.Directives.{
  Directive, proto_directive, port_directive, remote_directive, dev_directive, dev_type_directive,
  cipher_directive, data_ciphers_directive, auth_directive, remote_cert_tls_directive,
  verify_x509_name_directive, tls_version_min_directive, nobind_directive, other_directive,
  set_port, set_proto, set_dev, set_tun_type, apply_directive,
}
use super_proxy.Ovpn.Lines.{in_line, is_line, every-keep, every_weaken, every-trim}
use super_proxy.Ovpn.Reader.{IsInline}

unfoldable pub clean_values : SafeOpenVpnConfig → Bool
clean_values cfg =
    is_line cfg.protocol
    && is_line cfg.dev
    && is_line cfg.cipher
    && is_line cfg.data_ciphers
    && is_line cfg.auth
    && is_line cfg.remote_cert_tls
    && is_line cfg.verify_x509_name
    && is_line cfg.tls_version_min

pub record IsCleanScan (s : Scan) : Type 0 where
  pub values : clean_values s.safe_cfg ≡ true
  pub global_proto : is_line s.global_proto ≡ true
  pub ca : IsInline s.safe_cfg.inline_ca
  pub cert : IsInline s.safe_cfg.inline_cert
  pub key : IsInline s.safe_cfg.inline_key
  pub content : IsInline s.current_inline_content

-- A property of the value, if there is one.
abbrev pub IfOk {ℓ κ} : {A : Type ℓ} → (A → Type κ) → Try A → Type κ
IfOk P (failed e) = Unit
IfOk P (ok a) = P a

safe_rune-in_line : (c : ℕ) → is_safe_rune c ≡ true → in_line c ≡ true
unfolding is_control
safe_rune-in_line c h = ground arith

sanitize-line : (s : Chars) → is_line (sanitize_safe_string s) ≡ true
unfolding sanitize_safe_string trim_space_chars
sanitize-line s = every-trim in_line is_space (keep is_safe_rune s) (
    every_weaken in_line is_safe_rune safe_rune-in_line (keep is_safe_rune s)
      (every-keep is_safe_rune s))

proto_named-line : (udp tcp : Bool) → is_line (proto_named udp tcp) ≡ true
unfolding proto_named chars every
proto_named-line true tcp = refl
proto_named-line false true = refl
proto_named-line false false = refl

-- A scan with other values of the configuration, and the same blocks.
pub revalued :
    (s t : Scan)
    → IsCleanScan s
    → clean_values t.safe_cfg ≡ true
    → is_line t.global_proto ≡ true
    → t.safe_cfg.inline_ca ≡ s.safe_cfg.inline_ca
    → t.safe_cfg.inline_cert ≡ s.safe_cfg.inline_cert
    → t.safe_cfg.inline_key ≡ s.safe_cfg.inline_key
    → t.current_inline_content ≡ s.current_inline_content
    → IsCleanScan t
revalued s t h hv hp ea ec ek et = record {
  values = hv;
  global_proto = hp;
  ca = (h.ca.0, ea ∙ h.ca.1, h.ca.2);
  cert = (h.cert.0, ec ∙ h.cert.1, h.cert.2);
  key = (h.key.0, ek ∙ h.key.1, h.key.2);
  content = (h.content.0, et ∙ h.content.1, h.content.2);
}

set_port-IsClean : (p : Option ℤ) (s : Scan) → IsCleanScan s → IsCleanScan (set_port p s)
unfolding set_port
set_port-IsClean none s h = h
set_port-IsClean (some p) s h =
    if_either IsCleanScan (is_valid_port p)
      (revalued s (record s { global_port = p }) h h.values h.global_proto refl refl refl refl) h

set_proto-IsClean :
    (p : Chars) (s : Scan) → is_line p ≡ true → IsCleanScan s → IsCleanScan (set_proto p s)
unfolding clean_values
set_proto-IsClean p s hp h =
    if_either IsCleanScan (no_chars p) h
      (revalued s _ h (ground (arith, h.values, hp)) hp refl refl refl refl)

module _ (lib : Library) where
  pub apply_directive-IsClean :
      (d : Directive) (a : Chars) (args : List Chars) (s : Scan)
      → IsCleanScan s
      → IsCleanScan (apply_directive lib d a args s)
  unfolding apply_directive clean_values normalize_proto chars every
  apply_directive-IsClean proto_directive a args s h =
      set_proto-IsClean (normalize_proto lib.unicode a) s (proto_named-line _ _) h
  apply_directive-IsClean port_directive a args s h = set_port-IsClean (atoi a) s h
  apply_directive-IsClean remote_directive a args s h =
      revalued s _ h h.values h.global_proto refl refl refl refl
  apply_directive-IsClean dev_directive a args s h =
      let d = sanitize_safe_string a in
      if_either IsCleanScan (has_prefix d (chars "tun"))
        (revalued s (set_dev d s) h (ground (arith, h.values, sanitize-line a)) h.global_proto refl
          refl refl refl)
        h
  apply_directive-IsClean dev_type_directive a args s h =
      if_either IsCleanScan (to_lower_chars lib.unicode (sanitize_safe_string a) == chars "tun")
        (revalued s (set_tun_type s) h h.values h.global_proto refl refl refl refl) h
  apply_directive-IsClean cipher_directive a args s h =
      revalued s _ h (ground (arith, h.values, sanitize-line a)) h.global_proto refl refl refl refl
  apply_directive-IsClean data_ciphers_directive a args s h =
      revalued s _ h (ground (arith, h.values, sanitize-line (join_args (a ∷ args)))) h.global_proto
        refl refl refl refl
  apply_directive-IsClean auth_directive a args s h =
      revalued s _ h (ground (arith, h.values, sanitize-line a)) h.global_proto refl refl refl refl
  apply_directive-IsClean remote_cert_tls_directive a args s h =
      revalued s _ h (ground (arith, h.values, sanitize-line a)) h.global_proto refl refl refl refl
  apply_directive-IsClean verify_x509_name_directive a args s h =
      revalued s _ h (ground (arith, h.values, sanitize-line (join_args (a ∷ args)))) h.global_proto
        refl refl refl refl
  apply_directive-IsClean tls_version_min_directive a args s h =
      revalued s _ h (ground (arith, h.values, sanitize-line a)) h.global_proto refl refl refl refl
  apply_directive-IsClean nobind_directive a args s h =
      revalued s _ h h.values h.global_proto refl refl refl refl
  apply_directive-IsClean other_directive a args s h = h
