-- ===== src/Ovpn/Directives.antt =====
-- The directives of ParseSafeOpenVPNConfig in internal/discovery/vpngate_ovpn.go: a line outside of the
-- inline blocks.
use super_proxy.Base.{
  ℕ, true, false, ◌||◌, not, Option, none, some, List, [], ◌∷◌, ◌++◌, if◌then◌else◌, ◌==◌, nat_eq,
  contains,
}
use super_proxy.Base.Int.{ℤ, negsuc}
use super_proxy.Ovpn.Strings.{Chars, chars, chars_eq, no_chars, has_prefix, fields, join_args, atoi}
use super_proxy.Ovpn.Checks.{
  metacharacters, disallowed_directives, allowed_directives, sanitize_safe_string, is_valid_port,
  to_lower_chars, normalize_proto,
}
use super_proxy.Ovpn.Config.{
  Library, RawRemote, Scan, Try, failed, ok, argument_injection, disallowed, unrecognized,
  metacharacter,
}

-- The cases of `switch directive`; `other_directive` are the allowed ones that it does not name.
pub data Directive : Type 0 where
  proto_directive port_directive remote_directive dev_directive dev_type_directive : Directive
  cipher_directive data_ciphers_directive auth_directive remote_cert_tls_directive : Directive
  verify_x509_name_directive tls_version_min_directive nobind_directive : Directive
  other_directive : Directive

unfoldable pub directive_named : Chars → Directive
unfolding chars
directive_named name =
    if name == chars "proto"
    then proto_directive
    else if (name == chars "port") || (name == chars "rport")
    then port_directive
    else if name == chars "remote"
    then remote_directive
    else if name == chars "dev"
    then dev_directive
    else if name == chars "dev-type"
    then dev_type_directive
    else if name == chars "cipher"
    then cipher_directive
    else if name == chars "data-ciphers"
    then data_ciphers_directive
    else if name == chars "auth"
    then auth_directive
    else if name == chars "remote-cert-tls"
    then remote_cert_tls_directive
    else if name == chars "verify-x509-name"
    then verify_x509_name_directive
    else if name == chars "tls-version-min"
    then tls_version_min_directive
    else if name == chars "nobind"
    then nobind_directive
    else other_directive

-- The second argument of `remote` is a port, or else a protocol.
unfoldable pub second_argument : Chars → Chars → RawRemote
unfolding atoi
second_argument host a = elim (atoi a) [
  | none ↦ record { host = host; port = negsuc 0; has_explicit_port = false; raw_proto = a }
  | some p ↦ record { host = host; port = p; has_explicit_port = true; raw_proto = [] }
]

unfoldable pub third_argument : Chars → RawRemote → RawRemote
unfolding atoi
third_argument b r =
    if r.has_explicit_port
    then record r { raw_proto = b }
    else elim (atoi b) [ none ↦ r | some p ↦ record r { port = p; has_explicit_port = true } ]

unfoldable pub raw_remote : Chars → List Chars → RawRemote
unfolding second_argument third_argument
raw_remote host [] = record {
  host = host;
  port = negsuc 0;
  has_explicit_port = false;
  raw_proto = [];
}
raw_remote host (a ∷ []) = second_argument host a
raw_remote host (a ∷ b ∷ rest) = third_argument b (second_argument host a)

unfoldable pub set_port : Option ℤ → Scan → Scan
unfolding is_valid_port
set_port none s = s
set_port (some p) s = if is_valid_port p then record s { global_port = p } else s

abbrev pub set_proto : Chars → Scan → Scan
set_proto p s =
    if no_chars p
    then s
    else record s { global_proto = p; safe_cfg = record s.safe_cfg { protocol = p } }

abbrev pub set_dev : Chars → Scan → Scan
set_dev d s = record s {
  safe_cfg = record s.safe_cfg { dev = d };
  meta = record s.meta { dev = d };
}

abbrev pub set_tun_type : Scan → Scan
set_tun_type s = record s {
  safe_cfg = record s.safe_cfg { dev_type = chars "tun" };
  meta = record s.meta { dev_type = chars "tun" };
}

unfoldable pub first_metacharacter : List ℕ → Chars → Option ℕ
first_metacharacter [] line = none
first_metacharacter (c ∷ cs) line =
    let rest = first_metacharacter cs line in if contains line c then some c else rest

module _ (lib : Library) where
  -- The body of `switch directive` where there is an argument.
  unfoldable pub apply_directive : Directive → Chars → List Chars → Scan → Scan
  unfolding normalize_proto atoi set_port sanitize_safe_string raw_remote has_prefix to_lower_chars
      join_args chars
  apply_directive proto_directive a args s = set_proto (normalize_proto lib.unicode a) s
  apply_directive port_directive a args s = set_port (atoi a) s
  apply_directive remote_directive a args s = record s {
    raw_remotes = s.raw_remotes ++ (raw_remote (sanitize_safe_string a) args ∷ []);
  }
  apply_directive dev_directive a args s =
      let d = sanitize_safe_string a in if has_prefix d (chars "tun") then set_dev d s else s
  apply_directive dev_type_directive a args s =
      if to_lower_chars lib.unicode (sanitize_safe_string a) == chars "tun"
      then set_tun_type s
      else s
  apply_directive cipher_directive a args s =
      let v = sanitize_safe_string a in
      record s { safe_cfg = record s.safe_cfg { cipher = v }; meta = record s.meta { cipher = v } }
  apply_directive data_ciphers_directive a args s =
      let v = sanitize_safe_string (join_args (a ∷ args)) in
      record s {
        safe_cfg = record s.safe_cfg { data_ciphers = v };
        meta = record s.meta { data_ciphers = v };
      }
  apply_directive auth_directive a args s =
      let v = sanitize_safe_string a in
      record s { safe_cfg = record s.safe_cfg { auth = v }; meta = record s.meta { auth = v } }
  apply_directive remote_cert_tls_directive a args s =
      let v = sanitize_safe_string a in
      record s {
        safe_cfg = record s.safe_cfg { remote_cert_tls = v };
        meta = record s.meta { remote_cert_tls = v };
      }
  apply_directive verify_x509_name_directive a args s =
      let v = sanitize_safe_string (join_args (a ∷ args)) in
      record s {
        safe_cfg = record s.safe_cfg { verify_x509_name = v };
        meta = record s.meta { verify_x509_name = v };
      }
  apply_directive tls_version_min_directive a args s = record s {
    safe_cfg = record s.safe_cfg { tls_version_min = sanitize_safe_string a };
  }
  apply_directive nobind_directive a args s = record s {
    safe_cfg = record s.safe_cfg { nobind = true };
  }
  apply_directive other_directive a args s = s

  -- Without an argument only `nobind` does something.
  unfoldable pub switch_directive : Directive → List Chars → Scan → Scan
  unfolding apply_directive
  switch_directive nobind_directive [] s = record s {
    safe_cfg = record s.safe_cfg { nobind = true };
  }
  switch_directive d [] s = s
  switch_directive d (a ∷ args) s = apply_directive d a args s

  unfoldable pub run_directive : Chars → List Chars → Scan → Try Scan
  unfolding has_prefix disallowed_directives allowed_directives directive_named switch_directive
      chars
  run_directive directive args s =
      if has_prefix directive (chars "--")
      then failed (argument_injection directive)
      else if contains disallowed_directives directive
      then failed (disallowed directive)
      else if not (contains allowed_directives directive)
      then failed (unrecognized directive)
      else ok (switch_directive (directive_named directive) args s)

  unfoldable pub run_fields : List Chars → Scan → Try Scan
  unfolding to_lower_chars run_directive
  run_fields [] s = ok s
  run_fields (name ∷ args) s = run_directive (to_lower_chars lib.unicode name) args s

  unfoldable pub scan_directive : Chars → Scan → Try Scan
  unfolding first_metacharacter run_fields fields
  scan_directive line s = elim (first_metacharacter metacharacters line) [
    | some c ↦ failed (metacharacter c line)
    | none ↦ run_fields (fields line) s
  ]
