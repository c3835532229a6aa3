-- ===== src/Ovpn/RoundTrip.antt =====
-- The endpoints that GenerateSafeOpenVPNConfig of internal/discovery/vpngate_ovpn.go writes are read
-- back by ParseSafeOpenVPNConfig, but for their protocols.
use mathlib.Core.List.{append-nil, append_assoc}
use super_proxy.Base.{
  ℕ, ◌≤◌, ◌≡◌, refl, sym, ap, subst, ◌∙◌, true, not, Option, none, some, List, [], ◌∷◌, ◌++◌,
  if◌then◌else◌, nat_eq, All, map, leb→le, arith,
}
use super_proxy.Base.Int.{ℤ, pos, negsuc, ltb_ℤ}
use super_proxy.Ovpn.Strings.{
  Chars, chars, chars_beq, chars_eq, every, is_space, no_chars, trim_space_chars, has_prefix,
  fields, format_int, max_int,
}
use super_proxy.Ovpn.Checks.{
  is_valid_port, is_host_rune, metacharacters, to_lower_chars, disallowed_directives,
  allowed_directives, validate_host, sanitize_safe_string,
}
use super_proxy.Ovpn.Config.{
  Library, OpenVpnEndpoint, RawRemote, Scan, Try, ok, failed, metacharacter,
}
use super_proxy.Ovpn.Directives.{
  first_metacharacter, raw_remote, directive_named, apply_directive, switch_directive,
  run_directive, run_fields, scan_directive,
}
use super_proxy.Ovpn.Parse.{scan_trimmed, scan_lines}
use super_proxy.Ovpn.Resolve.{resolve, resolve_all, is_known_proto}
use super_proxy.Ovpn.Generate.{directive_line, remote_line, remote_lines}
use super_proxy.Ovpn.Lines.{every-append, every_weaken, ends_solid, trim-is_solid}
use super_proxy.Ovpn.Decimal.{is_decimal_digit, format_int-digits, format_int-filled}
use super_proxy.Ovpn.Safe.{IsEndpoint}
use super_proxy.Ovpn.Remotes.{
  not_space, IsPlainHost, sanitize-host, none_of, first_metacharacter-none, digit-not_space,
  digit-no_metacharacter, host_rune-no_metacharacter, raw_remote-port, fields-remote_line,
  ends-append, ends-every, explicit_remote,
}

-- The line of a host and a port.
abbrev line_of : Chars → ℕ → Chars
line_of host n = directive_line "remote" (host ++ (32 ∷ format_int (pos n)))

line_of-no_metacharacter :
    (host : Chars) (n : ℕ)
    → IsPlainHost host
    → first_metacharacter metacharacters (line_of host n) ≡ none
unfolding chars every
line_of-no_metacharacter host n (hr, hs, hn) =
    first_metacharacter-none metacharacters (line_of host n) (
      every-append (none_of metacharacters) host (32 ∷ format_int (pos n))
        (every_weaken (none_of metacharacters) is_host_rune host_rune-no_metacharacter host hr)
        (every_weaken (none_of metacharacters) is_decimal_digit digit-no_metacharacter
          (format_int (pos n)) (format_int-digits n)))

line_of-ends : (host : Chars) (n : ℕ) → ends_solid (line_of host n) ≡ true
unfolding chars ends_solid
line_of-ends host n = ends-append (chars "remote" ++ (32 ∷ host)) (32 ∷ format_int (pos n)) refl (
    ends-append (32 ∷ []) (format_int (pos n)) (format_int-filled n) (
      ends-every (format_int (pos n))
        (every_weaken not_space is_decimal_digit digit-not_space (format_int (pos n))
          (format_int-digits n))
        (format_int-filled n)))

trim-line_of : (host : Chars) (n : ℕ) → trim_space_chars (line_of host n) ≡ line_of host n
unfolding chars is_space
trim-line_of host n = trim-is_solid (line_of host n) (line_of-ends host n)

abbrev port_remote : Chars → ℕ → RawRemote
port_remote host n = record { host = host; port = pos n; has_explicit_port = true; raw_proto = [] }

abbrev with_remote : RawRemote → Scan → Scan
with_remote r s = record s { raw_remotes = s.raw_remotes ++ (r ∷ []) }

valid_port :
    (p : ℤ)
    → is_valid_port p ≡ true
    → (n : ℕ) × (p ≡ pos n) × (n ≤ max_int) × (ltb_ℤ (pos 0) p ≡ true)
unfolding is_valid_port
valid_port (pos n) h =
    (n, refl, omega (arith, leb→le n 65535 (ground (arith, h))), ground (arith, h))
valid_port (negsuc n) h = ground (arith, h)

-- An endpoint that passed the checks, with a host without spaces, as the fields of a line are.
abbrev pub IsWritable : Library → OpenVpnEndpoint → Type 0
IsWritable lib e = IsEndpoint lib e × (every not_space e.host ≡ true)

writable_host : (lib : Library) (e : OpenVpnEndpoint) → IsWritable lib e → IsPlainHost e.host
unfolding validate_host
writable_host lib e h = (ground (arith, h.0.0), h.1, ground (arith, h.0.0))

-- The protocol of all endpoints that name none: that of the last `proto` line, or "udp".
abbrev pub shared_proto : Scan → Chars
shared_proto s = if not (no_chars s.global_proto) then s.global_proto else chars "udp"

module _ (lib : Library)
    (lower : to_lower_chars lib.unicode (chars "remote") ≡ chars "remote") where
  run_directive-remote :
      (a : Chars) (args : List Chars) (s : Scan)
      → run_directive lib (chars "remote") (a ∷ args) s
        ≡ ok (with_remote (raw_remote (sanitize_safe_string a) args) s)
  unfolding run_directive switch_directive apply_directive directive_named disallowed_directives
      allowed_directives has_prefix chars_beq chars
  run_directive-remote a args s = refl

  run_fields-remote :
      (host : Chars) (n : ℕ) (s : Scan)
      → IsPlainHost host
      → n ≤ max_int
      → run_fields lib (chars "remote" ∷ host ∷ format_int (pos n) ∷ []) s
        ≡ ok (with_remote (port_remote host n) s)
  unfolding run_fields
  run_fields-remote host n s (hr, hs, hn) h =
      ap (λ d. run_directive lib d (host ∷ format_int (pos n) ∷ []) s) lower
      ∙ run_directive-remote host (format_int (pos n) ∷ []) s
      ∙ ap (λ (r : RawRemote). ok (with_remote r s))
          (ap (λ t. raw_remote t (format_int (pos n) ∷ [])) (sanitize-host host hr hs hn)
            ∙ raw_remote-port host n h)

  scan_directive-line_of :
      (host : Chars) (n : ℕ) (s : Scan)
      → IsPlainHost host
      → n ≤ max_int
      → scan_directive lib (line_of host n) s ≡ ok (with_remote (port_remote host n) s)
  unfolding scan_directive
  scan_directive-line_of host n s hh h =
      ap
        (λ (o : Option ℕ).
          let r : Try Scan = elim o [
            | some c ↦ failed (metacharacter c (line_of host n))
            | none ↦ run_fields lib (fields (line_of host n)) s
          ] in
          r)
        (line_of-no_metacharacter host n hh)
      ∙ ap (λ ws. run_fields lib ws s) (fields-remote_line host n hh)
      ∙ run_fields-remote host n s hh h

  scan_trimmed-directive :
      (host : Chars) (n : ℕ) (s : Scan)
      → no_chars s.current_inline_tag ≡ true
      → scan_trimmed lib (line_of host n) s ≡ scan_directive lib (line_of host n) s
  unfolding scan_trimmed chars has_prefix
  scan_trimmed-directive host n s ht = rw ht refl

  scan_trimmed-line_of :
      (host : Chars) (n : ℕ) (s : Scan)
      → IsPlainHost host
      → n ≤ max_int
      → no_chars s.current_inline_tag ≡ true
      → scan_trimmed lib (trim_space_chars (line_of host n)) s
        ≡ ok (with_remote (port_remote host n) s)
  scan_trimmed-line_of host n s hh h ht =
      ap (λ l. scan_trimmed lib l s) (trim-line_of host n)
      ∙ scan_trimmed-directive host n s ht
      ∙ scan_directive-line_of host n s hh h

  scan_trimmed-remote_line :
      (e : OpenVpnEndpoint) (s : Scan)
      → IsWritable lib e
      → no_chars s.current_inline_tag ≡ true
      → scan_trimmed lib (trim_space_chars (remote_line e)) s
        ≡ ok (with_remote (explicit_remote e) s)
  unfolding remote_line
  scan_trimmed-remote_line e s h ht =
      let port = valid_port e.port h.0.1 in
      subst
        (λ (p : ℤ).
          let r : RawRemote = record {
            host = e.host;
            port = p;
            has_explicit_port = true;
            raw_proto = [];
          } in
          scan_trimmed lib
            (trim_space_chars (directive_line "remote" (e.host ++ (32 ∷ format_int p)))) s
          ≡ ok (with_remote r s))
        (sym port.1) (scan_trimmed-line_of e.host port.0 s (writable_host lib e h) port.2 ht)

  scan_lines-remote_lines :
      (es : List OpenVpnEndpoint) (s : Scan)
      → All (IsWritable lib) es
      → no_chars s.current_inline_tag ≡ true
      → scan_lines lib (remote_lines es []) s
        ≡ ok (record s { raw_remotes = s.raw_remotes ++ map explicit_remote es })
  unfolding scan_lines
  scan_lines-remote_lines [] s h ht =
      ap (λ rs. ok (record s { raw_remotes = rs })) (sym (append-nil s.raw_remotes))
  scan_lines-remote_lines (e ∷ es) s (h, hs) ht =
      ap
        (λ (t : Try Scan).
          let r : Try Scan = elim t [
            | failed err ↦ failed err
            | ok s1 ↦ scan_lines lib (remote_lines es []) s1
          ] in
          r)
        (scan_trimmed-remote_line e s h ht)
      ∙ scan_lines-remote_lines es (with_remote (explicit_remote e) s) hs ht
      ∙ ap (λ rs. ok (record s { raw_remotes = rs }))
          (append_assoc s.raw_remotes (explicit_remote e ∷ []) (map explicit_remote es))

abbrev pub with_proto : Chars → OpenVpnEndpoint → OpenVpnEndpoint
with_proto p e = record e { proto = p }

module _ (lib : Library) where
  resolve-explicit :
      (s : Scan) (e : OpenVpnEndpoint)
      → IsWritable lib e
      → is_known_proto (shared_proto s) ≡ true
      → resolve lib s (explicit_remote e) ≡ some (record e { proto = shared_proto s })
  unfolding resolve
  resolve-explicit s e h hk = rw (h.0.0, h.0.1, (valid_port e.port h.0.1).3, h.0.1, hk) refl

  resolve_all-explicit :
      (s : Scan) (es : List OpenVpnEndpoint)
      → All (IsWritable lib) es
      → is_known_proto (shared_proto s) ≡ true
      → resolve_all lib s (map explicit_remote es) ≡ map (with_proto (shared_proto s)) es
  unfolding resolve_all
  resolve_all-explicit s [] h hk = refl
  resolve_all-explicit s (e ∷ es) (h, hs) hk =
      let rest = resolve_all lib s (map explicit_remote es) in
      ap
        (λ (o : Option OpenVpnEndpoint).
          let r : List OpenVpnEndpoint = elim o [ none ↦ rest | some found ↦ found ∷ rest ] in r)
        (resolve-explicit s e h hk)
      ∙ ap (λ l. with_proto (shared_proto s) e ∷ l) (resolve_all-explicit s es hs hk)

-- The `remote` lines that are written for checked endpoints, with hosts without spaces, are read back as
-- those endpoints in their order with their hosts and ports; but each has then the one protocol of the
-- `proto` line, since its own protocol is not written. It is assumed that "remote" is in lower case,
-- that the lines are read outside of an inline block, before other `remote` lines, and that the
-- protocol read from `proto` lines, if there is one, is "udp" or "tcp".
pub endpoints_round_trip :
    (lib : Library) (es : List OpenVpnEndpoint) (s : Scan)
    → to_lower_chars lib.unicode (chars "remote") ≡ chars "remote"
    → All (IsWritable lib) es
    → no_chars s.current_inline_tag ≡ true
    → s.raw_remotes ≡ []
    → is_known_proto (shared_proto s) ≡ true
    → (t : Scan) × (scan_lines lib (remote_lines es []) s ≡ ok t)
      × (resolve_all lib t t.raw_remotes ≡ map (with_proto (shared_proto s)) es)
endpoints_round_trip lib es s lower h ht hr hk = (
  record s { raw_remotes = map explicit_remote es },
  scan_lines-remote_lines lib lower es s h ht
      ∙ ap (λ rs. ok (record s { raw_remotes = rs ++ map explicit_remote es })) hr,
  resolve_all-explicit lib (record s { raw_remotes = map explicit_remote es }) es h hk,
)
