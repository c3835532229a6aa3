-- ===== src/Ovpn/Parse.antt =====
-- The loop over the lines in ParseSafeOpenVPNConfig of internal/discovery/vpngate_ovpn.go, with the
-- inline blocks.
use super_proxy.Base.{
  ℕ, Bool, ◌&&◌, ◌||◌, not, List, [], ◌∷◌, ◌++◌, if◌then◌else◌, ◌==◌, nat_eq, contains,
}
use super_proxy.Ovpn.Strings.{
  Chars, chars, chars_eq, no_chars, has_prefix, has_suffix, trim, trim_space_chars,
}
use super_proxy.Ovpn.Checks.{to_lower_chars, equal_fold, validate_pem_line}
use super_proxy.Ovpn.Config.{
  Library, SafeOpenVpnConfig, Scan, Try, failed, ok, invalid_inline, unauthorized_tag,
}
use super_proxy.Ovpn.Directives.{scan_directive}

abbrev pub is_tag_edge : ℕ → Bool
is_tag_edge c = contains (60 ∷ 62 ∷ 47 ∷ 32 ∷ 9 ∷ []) c

abbrev pub inline_tags : List Chars
inline_tags = chars "ca" ∷ chars "cert" ∷ chars "key" ∷ []

abbrev pub keep_block : Chars → Chars → SafeOpenVpnConfig → SafeOpenVpnConfig
keep_block tag content cfg =
    if tag == chars "ca"
    then record cfg { inline_ca = content }
    else if tag == chars "cert"
    then record cfg { inline_cert = content }
    else if tag == chars "key"
    then record cfg { inline_key = content }
    else cfg

unfoldable pub close_block : Scan → Scan
unfolding chars
close_block s = record s {
  safe_cfg = keep_block s.current_inline_tag s.current_inline_content s.safe_cfg;
  current_inline_tag = [];
  current_inline_content = [];
}

abbrev pub is_skipped : Chars → Bool
is_skipped line = no_chars line || has_prefix line (chars "#") || has_prefix line (chars ";")

module _ (lib : Library) where
  -- `<ca>` and the like open a block.
  unfoldable pub open_block : Chars → Scan → Try Scan
  unfolding to_lower_chars trim chars
  open_block line s =
      let tag = to_lower_chars lib.unicode (trim is_tag_edge line) in
      if contains inline_tags tag
      then ok (record s { current_inline_tag = tag; current_inline_content = [] })
      else failed (unauthorized_tag tag)

  -- A line inside of a block.
  unfoldable pub scan_inline : Chars → Scan → Try Scan
  unfolding equal_fold chars close_block validate_pem_line
  scan_inline line s =
      if equal_fold lib.unicode line (chars "</" ++ s.current_inline_tag ++ chars ">")
      then ok (close_block s)
      else if validate_pem_line lib.unicode line
      then ok (record s { current_inline_content = s.current_inline_content ++ line ++ (10 ∷ []) })
      else failed (invalid_inline s.current_inline_tag)

  -- One round of the loop over the lines, on a trimmed line.
  unfoldable pub scan_trimmed : Chars → Scan → Try Scan
  unfolding has_prefix has_suffix chars scan_inline open_block scan_directive
  scan_trimmed line s =
      if is_skipped line
      then ok s
      else if not (no_chars s.current_inline_tag)
      then scan_inline line s
      else if has_prefix line (chars "<") && has_suffix line (chars ">")
      then open_block line s
      else scan_directive lib line s

  unfoldable pub scan_lines : List Chars → Scan → Try Scan
  unfolding scan_trimmed trim_space_chars
  scan_lines [] s = ok s
  scan_lines (line ∷ rest) s = elim (scan_trimmed (trim_space_chars line) s) [
    | failed e ↦ failed e
    | ok s1 ↦ scan_lines rest s1
  ]
