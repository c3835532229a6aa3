-- ===== src/Ovpn/Checks.antt =====
-- The checks on texts at the end of internal/discovery/vpngate_ovpn.go, and its lists of directives.
-- `is_ip` tells whether net.ParseIP takes a text.
use super_proxy.Base.{
  ℕ, Bool, true, false, ◌&&◌, ◌||◌, not, List, [], ◌∷◌, if◌then◌else◌, ◌==◌, nat_eq, leb, contains,
  map,
}
use super_proxy.Base.Int.{ℤ, pos, negsuc}
use super_proxy.Ovpn.Strings.{
  Chars, Unicode, chars, chars_eq, no_chars, every, keep, is_control, trim_space_chars, has_prefix,
  split_at, byte_length,
}

-- The runes of the strings ";&|`$(){}\", and of the quotes and angle brackets.
abbrev pub metacharacters : List ℕ
metacharacters = 59 ∷ 38 ∷ 124 ∷ 96 ∷ 36 ∷ 40 ∷ 41 ∷ 123 ∷ 125 ∷ 92 ∷ []

abbrev pub host_forbidden : List ℕ
host_forbidden =
    59 ∷ 38 ∷ 124 ∷ 96 ∷ 36 ∷ 40 ∷ 41 ∷ 123 ∷ 125 ∷ 60 ∷ 62 ∷ 10 ∷ 13 ∷ 9 ∷ 34 ∷ 39 ∷ 92 ∷ 32 ∷ []

abbrev pub unsafe_runes : List ℕ
unsafe_runes = 59 ∷ 38 ∷ 124 ∷ 96 ∷ 36 ∷ 34 ∷ 39 ∷ 92 ∷ 60 ∷ 62 ∷ []

-- disallowedDirectives
unfoldable pub disallowed_directives : List Chars
unfolding chars
disallowed_directives = map chars (
    "up" ∷ "down" ∷ "route-up" ∷ "route-pre-down" ∷ "ipchange" ∷ "plugin" ∷ "tls-verify"
    ∷ "auth-user-pass-verify" ∷ "client-connect" ∷ "client-disconnect" ∷ "learn-address" ∷ "route"
    ∷ "route-ipv6" ∷ "management" ∷ "management-client" ∷ "management-query-passwords"
    ∷ "script-security" ∷ "system" ∷ "setenv" ∷ "setenv-safe" ∷ "exec" ∷ "user" ∷ "group" ∷ "chroot"
    ∷ "daemon" ∷ "socks-proxy" ∷ "http-proxy" ∷ [])

-- allowedDirectives
unfoldable pub allowed_directives : List Chars
unfolding chars
allowed_directives = map chars (
    "persist-key" ∷ "persist-tun" ∷ "client" ∷ "proto" ∷ "remote" ∷ "port" ∷ "rport" ∷ "dev"
    ∷ "dev-type" ∷ "cipher" ∷ "data-ciphers" ∷ "auth" ∷ "remote-cert-tls" ∷ "verify-x509-name"
    ∷ "tls-version-min" ∷ "nobind" ∷ "resolv-retry" ∷ "fast-io" ∷ "ping" ∷ "ping-restart"
    ∷ "keepalive" ∷ "explicit-exit-notify" ∷ "auth-user-pass" ∷ "verb" ∷ [])

-- sanitizeSafeString
abbrev pub is_safe_rune : ℕ → Bool
is_safe_rune c = not (is_control c) && not (contains unsafe_runes c)

unfoldable pub sanitize_safe_string : Chars → Chars
unfolding keep trim_space_chars is_control
sanitize_safe_string s = trim_space_chars (keep is_safe_rune s)

unfoldable pub is_valid_port : ℤ → Bool
is_valid_port (pos n) = leb 1 n && leb n 65535
is_valid_port (negsuc n) = false

-- The names of the two protocols.
unfoldable pub is_udp_name : Chars → Bool
unfolding chars
is_udp_name name = contains (chars "udp" ∷ chars "udp4" ∷ chars "udp6" ∷ []) name

unfoldable pub is_tcp_name : Chars → Bool
unfolding chars
is_tcp_name name =
    contains
      (chars "tcp" ∷ chars "tcp4" ∷ chars "tcp6" ∷ chars "tcp-client" ∷ chars "tcp-server" ∷ [])
      name

unfoldable pub proto_named : Bool → Bool → Chars
unfolding chars
proto_named udp tcp = if udp then chars "udp" else if tcp then chars "tcp" else []

abbrev pub is_host_rune : ℕ → Bool
is_host_rune c = not (is_control c) && not (contains host_forbidden c)

module _ (u : Unicode) where
  unfoldable pub to_lower_chars : Chars → Chars
  to_lower_chars s = map u.lower_rune s

  -- strings.EqualFold
  unfoldable pub equal_fold : Chars → Chars → Bool
  equal_fold s t = map u.fold_rune s == map u.fold_rune t

  abbrev pub is_base64_rune : ℕ → Bool
  is_base64_rune c =
      u.is_letter c || u.is_digit c || (c == 43) || (c == 47) || (c == 61) || (c == 45) || (c == 95)

  abbrev is_pem_text : Chars → Bool
  is_pem_text trimmed =
      no_chars trimmed
      || has_prefix trimmed (chars "-----BEGIN ")
      || has_prefix trimmed (chars "-----END ")
      || every is_base64_rune trimmed

  -- validatePEMLine
  unfoldable pub validate_pem_line : Chars → Bool
  unfolding trim_space_chars has_prefix every chars
  validate_pem_line line = is_pem_text (trim_space_chars line)

  -- normalizeProto
  unfoldable pub normalize_proto : Chars → Chars
  unfolding to_lower_chars trim_space_chars is_udp_name is_tcp_name proto_named
  normalize_proto p =
      let cleaned = to_lower_chars (trim_space_chars p) in
      proto_named (is_udp_name cleaned) (is_tcp_name cleaned)

  abbrev is_label_rune : ℕ → Bool
  is_label_rune c = u.is_letter c || u.is_digit c || (c == 45) || (c == 95)

  -- The runes of a label, of which the first and the last are no hyphen or underscore.
  unfoldable pub label_runes : Bool → Chars → Bool
  label_runes first [] = true
  label_runes first (c ∷ s) =
      is_label_rune c
      && not ((first || no_chars s) && ((c == 45) || (c == 95)))
      && label_runes false s

  abbrev pub is_label : Chars → Bool
  is_label label = leb 1 (byte_length label) && leb (byte_length label) 63 && label_runes true label

  unfoldable pub all_labels : List Chars → Bool
  unfolding label_runes
  all_labels [] = true
  all_labels (label ∷ labels) = is_label label && all_labels labels

  -- validateHost
  unfoldable pub validate_host : (Chars → Bool) → Chars → Bool
  unfolding every split_at all_labels byte_length is_control
  validate_host is_ip host =
      not (no_chars host)
      && leb (byte_length host) 255
      && every is_host_rune host
      && (is_ip host || all_labels (split_at 46 host))
