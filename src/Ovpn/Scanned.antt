-- ===== src/Ovpn/Scanned.antt =====
-- The loop over the lines in ParseSafeOpenVPNConfig of internal/discovery/vpngate_ovpn.go accepts only
-- what is clean. Go's tables are asked for one thing: that `<` is neither a letter nor a digit.
use mathlib.Core.List.{append_assoc}
use super_proxy.Base.{
  ◌≡◌, refl, sym, ◌∙◌, ap, true, false, ◌&&◌, not, none, some, List, [], ◌∷◌, ◌++◌, ◌==◌, nat_eq,
  contains, All, Bool-cases, if_either, inl, inr, arith,
}
use super_proxy.Ovpn.Strings.{
  Chars, Unicode, chars, chars_eq, every, trim, trim_space_chars, is_space, no_chars, has_prefix,
  has_suffix, fields, unlines,
}
use super_proxy.Ovpn.Checks.{
  disallowed_directives, allowed_directives, to_lower_chars, equal_fold, validate_pem_line,
  metacharacters,
}
use super_proxy.Ovpn.Config.{
  Library, SafeOpenVpnConfig, Scan, Try, failed, ok, metacharacter, initial_scan,
}
use super_proxy.Ovpn.Directives.{
  Directive, proto_directive, port_directive, remote_directive, dev_directive, dev_type_directive,
  cipher_directive, data_ciphers_directive, auth_directive, remote_cert_tls_directive,
  verify_x509_name_directive, tls_version_min_directive, nobind_directive, other_directive,
  directive_named, switch_directive, run_directive, run_fields, first_metacharacter, scan_directive,
}
use super_proxy.Ovpn.Parse.{
  inline_tags, is_tag_edge, open_block, keep_block, close_block, scan_inline, is_skipped,
  scan_trimmed, scan_lines,
}
use super_proxy.Ovpn.Lines.{in_line, is_line, is_solid, every-trim, trim-is_solid, trim-solid}
use super_proxy.Ovpn.Reader.{IsInline, IsInlineLine, closes_block}
use super_proxy.Ovpn.Accepted.{IsCleanScan, IfOk, clean_values, revalued, apply_directive-IsClean}

unlines-append :
    (ls : List Chars) (l : Chars) → unlines (ls ++ (l ∷ [])) ≡ (unlines ls ++ l) ++ (10 ∷ [])
unfolding unlines
unlines-append [] l = refl
unlines-append (m ∷ ls) l =
    ap (λ t. m ++ (10 ∷ t)) (unlines-append ls l)
    ∙ sym (append_assoc m (10 ∷ (unlines ls ++ l)) (10 ∷ []))
    ∙ ap (λ t. t ++ (10 ∷ [])) (sym (append_assoc m (10 ∷ unlines ls) l))

All-append {ℓ κ} :
    {A : Type ℓ} (P : A → Type κ) (xs : List A) (x : A) → All P xs → P x → All P (xs ++ (x ∷ []))
All-append P [] x h hx = (hx, tt)
All-append P (y ∷ xs) x (h, hs) hx = (h, All-append P xs x hs hx)

IsInline-append :
    (content l : Chars) → IsInline content → IsInlineLine l → IsInline (content ++ l ++ (10 ∷ []))
IsInline-append content l (ls, e, h) hl = (
  ls ++ (l ∷ []),
  ap (λ t. t ++ l ++ (10 ∷ [])) e ∙ sym (unlines-append ls l),
  All-append IsInlineLine ls l h hl,
)

-- No line of a block that passes the check could close it.
pem_line-closes :
    (u : Unicode) (line : Chars)
    → u.is_letter 60 ≡ false
    → u.is_digit 60 ≡ false
    → is_solid line ≡ true
    → validate_pem_line u line ≡ true
    → closes_block line ≡ false
unfolding validate_pem_line has_prefix chars every
pem_line-closes u [] hl hd hs h = refl
pem_line-closes u (c ∷ line) hl hd hs h = ground (arith, hl, hd, trim-is_solid (c ∷ line) hs, h)

-- The blocks and values of a configuration.
abbrev CleanParts : SafeOpenVpnConfig → Type 0
CleanParts cfg =
    (clean_values cfg ≡ true)
    × IsInline cfg.inline_ca
    × IsInline cfg.inline_cert
    × IsInline cfg.inline_key

keep_block-IsClean :
    (tag content : Chars) (cfg : SafeOpenVpnConfig)
    → CleanParts cfg
    → IsInline content
    → CleanParts (keep_block tag content cfg)
unfolding clean_values
keep_block-IsClean tag content cfg (hv, ha, hc, hk) h =
    if_either CleanParts (tag == chars "ca") (hv, h, hc, hk)
      (if_either CleanParts (tag == chars "cert") (hv, ha, h, hk)
        (if_either CleanParts (tag == chars "key") (hv, ha, hc, h) (hv, ha, hc, hk)))

no_lines : IsInline []
unfolding unlines
no_lines = ([], refl, tt)

close_block-IsClean : (s : Scan) → IsCleanScan s → IsCleanScan (close_block s)
unfolding close_block
close_block-IsClean s h = record {
  values = kept.0;
  global_proto = h.global_proto;
  ca = kept.1;
  cert = kept.2;
  key = kept.3;
  content = no_lines;
}
  where
    kept : CleanParts (keep_block s.current_inline_tag s.current_inline_content s.safe_cfg)
    kept =
        keep_block-IsClean s.current_inline_tag s.current_inline_content s.safe_cfg
          (h.values, h.ca, h.cert, h.key) h.content

trim_space-line : (s : Chars) → is_line s ≡ true → is_line (trim_space_chars s) ≡ true
unfolding trim_space_chars
trim_space-line s h = every-trim in_line is_space s h

-- What the rest makes of the value of a step.
then_ok {ℓ ℓ' κ κ'} :
    {A : Type ℓ} {B : Type ℓ'} (P : A → Type κ) (Q : B → Type κ') (step : Try A) (f : A → Try B)
    → IfOk P step
    → ((a : A) → P a → IfOk Q (f a))
    → IfOk Q (elim step [ failed e ↦ failed e | ok a ↦ f a ])
then_ok P Q (failed e) f h next = tt
then_ok P Q (ok a) f h next = next a h

module _ (lib : Library) where
  switch_directive-IsClean :
      (d : Directive) (args : List Chars) (s : Scan)
      → IsCleanScan s
      → IsCleanScan (switch_directive lib d args s)
  unfolding switch_directive clean_values
  switch_directive-IsClean d (a ∷ args) s h = apply_directive-IsClean lib d a args s h
  switch_directive-IsClean d [] s h = elim d as (λ e. IsCleanScan (switch_directive lib e [] s)) [
    | nobind_directive ↦
        revalued s (record s { safe_cfg = record s.safe_cfg { nobind = true } }) h h.values
          h.global_proto refl refl refl refl
    | proto_directive ↦ h
    | port_directive ↦ h
    | remote_directive ↦ h
    | dev_directive ↦ h
    | dev_type_directive ↦ h
    | cipher_directive ↦ h
    | data_ciphers_directive ↦ h
    | auth_directive ↦ h
    | remote_cert_tls_directive ↦ h
    | verify_x509_name_directive ↦ h
    | tls_version_min_directive ↦ h
    | other_directive ↦ h
  ]

  run_directive-IsClean :
      (directive : Chars) (args : List Chars) (s : Scan)
      → IsCleanScan s
      → IfOk IsCleanScan (run_directive lib directive args s)
  unfolding run_directive
  run_directive-IsClean directive args s h =
      if_either (IfOk IsCleanScan) (has_prefix directive (chars "--")) tt (
        if_either (IfOk IsCleanScan) (contains disallowed_directives directive) tt (
          if_either (IfOk IsCleanScan) (not (contains allowed_directives directive)) tt
            (switch_directive-IsClean (directive_named directive) args s h)))

  run_fields-IsClean :
      (words : List Chars) (s : Scan) → IsCleanScan s → IfOk IsCleanScan (run_fields lib words s)
  unfolding run_fields
  run_fields-IsClean [] s h = h
  run_fields-IsClean (name ∷ args) s h =
      run_directive-IsClean (to_lower_chars lib.unicode name) args s h

  scan_directive-IsClean :
      (line : Chars) (s : Scan) → IsCleanScan s → IfOk IsCleanScan (scan_directive lib line s)
  unfolding scan_directive
  scan_directive-IsClean line s h =
      elim (first_metacharacter metacharacters line)
        as (λ o. IfOk IsCleanScan (elim o [
          | some c ↦ failed (metacharacter c line)
          | none ↦ run_fields lib (fields line) s
        ])) [ none ↦ run_fields-IsClean (fields line) s h | some c ↦ tt ]

  open_block-IsClean :
      (line : Chars) (s : Scan) → IsCleanScan s → IfOk IsCleanScan (open_block lib line s)
  unfolding open_block
  open_block-IsClean line s h =
      if_either (IfOk IsCleanScan)
        (contains inline_tags (to_lower_chars lib.unicode (trim is_tag_edge line)))
        (record {
          values = h.values;
          global_proto = h.global_proto;
          ca = h.ca;
          cert = h.cert;
          key = h.key;
          content = no_lines;
        })
        tt

  module _ (hl : lib.unicode.is_letter 60 ≡ false) (hd : lib.unicode.is_digit 60 ≡ false) where
    scan_inline-IsClean :
        (line : Chars) (s : Scan)
        → is_line line ≡ true
        → is_solid line ≡ true
        → IsCleanScan s
        → IfOk IsCleanScan (scan_inline lib line s)
    unfolding scan_inline
    scan_inline-IsClean line s hn hs h =
        if_either (IfOk IsCleanScan)
          (equal_fold lib.unicode line ((chars "</" ++ s.current_inline_tag) ++ chars ">"))
          (close_block-IsClean s h)
          (elim (Bool-cases (validate_pem_line lib.unicode line)) [
            | inl valid ↦ rw valid (record {
              values = h.values;
              global_proto = h.global_proto;
              ca = h.ca;
              cert = h.cert;
              key = h.key;
              content =
                  IsInline-append s.current_inline_content line h.content
                    (hn, hs, pem_line-closes lib.unicode line hl hd hs valid);
            })
            | inr invalid ↦ rw invalid tt
          ])

    scan_trimmed-IsClean :
        (raw : Chars) (s : Scan)
        → is_line raw ≡ true
        → IsCleanScan s
        → IfOk IsCleanScan (scan_trimmed lib (trim_space_chars raw) s)
    unfolding scan_trimmed
    scan_trimmed-IsClean raw s hn h = elim (Bool-cases (no_chars (trim_space_chars raw))) [
      | inl empty ↦ rw empty h
      | inr filled ↦
          let line = trim_space_chars raw in
          let solid : is_solid line ≡ true = trim-solid raw filled in
          if_either (IfOk IsCleanScan) (is_skipped line) h (
            if_either (IfOk IsCleanScan) (not (no_chars s.current_inline_tag))
              (scan_inline-IsClean line s (trim_space-line raw hn) solid h)
              (if_either (IfOk IsCleanScan)
                (has_prefix line (chars "<") && has_suffix line (chars ">"))
                (open_block-IsClean line s h) (scan_directive-IsClean line s h)))
    ]

    pub scan_lines-IsClean :
        (lines : List Chars) (s : Scan)
        → All (λ l. is_line l ≡ true) lines
        → IsCleanScan s
        → IfOk IsCleanScan (scan_lines lib lines s)
    unfolding scan_lines
    scan_lines-IsClean [] s hn h = h
    scan_lines-IsClean (raw ∷ lines) s (hn, hs) h =
        then_ok IsCleanScan IsCleanScan (scan_trimmed lib (trim_space_chars raw) s)
          (λ s1. scan_lines lib lines s1) (scan_trimmed-IsClean raw s hn h)
          (λ s1 h1. scan_lines-IsClean lines s1 hs h1)

pub initial_scan-IsClean : IsCleanScan initial_scan
unfolding initial_scan clean_values every chars unlines
initial_scan-IsClean = record {
  values = refl;
  global_proto = refl;
  ca = no_lines;
  cert = no_lines;
  key = no_lines;
  content = no_lines;
}
