-- ===== src/Ovpn/Remotes.antt =====
-- ParseSafeOpenVPNConfig of internal/discovery/vpngate_ovpn.go reads the `remote` lines that
-- GenerateSafeOpenVPNConfig writes.
use super_proxy.Base.{
  ℕ, ◌≤◌, ◌≡◌, refl, ap, ◌∙◌, Bool, true, false, not, Option, none, some, List, [], ◌∷◌, ◌++◌,
  nat_eq, contains, arith,
}
use super_proxy.Base.Int.{ℤ, pos, negsuc}
use super_proxy.Ovpn.Strings.{
  Chars, chars, chars_eq, every, keep, is_space, is_control, no_chars, trim_space_chars, fields,
  extend, format_int, max_int,
}
use super_proxy.Ovpn.Checks.{is_safe_rune, is_host_rune, sanitize_safe_string, metacharacters}
use super_proxy.Ovpn.Config.{OpenVpnEndpoint, RawRemote}
use super_proxy.Ovpn.Directives.{first_metacharacter, raw_remote}
use super_proxy.Ovpn.Generate.{directive_line}
use super_proxy.Ovpn.Lines.{every_weaken, is_solid, ends_solid, trim-is_solid}
use super_proxy.Ovpn.Decimal.{
  is_decimal_digit, format_int-digits, format_int-filled, atoi-format_int,
}

abbrev pub not_space : ℕ → Bool
not_space c = not (is_space c)

fields-step :
    (c d : ℕ) (s : Chars)
    → is_space c ≡ false
    → is_space d ≡ false
    → fields (c ∷ d ∷ s) ≡ extend c (fields (d ∷ s))
unfolding fields
fields-step c d s hc hd = rw (hc, hd) refl

fields-word :
    (w rest : Chars)
    → every not_space w ≡ true
    → no_chars w ≡ false
    → fields (w ++ (32 ∷ rest)) ≡ w ∷ fields rest
unfolding fields every is_space
fields-word [] rest h hn = ground (arith, hn)
fields-word (c ∷ []) rest h hn = ground (arith, h)
fields-word (c ∷ d ∷ w) rest h hn =
    fields-step c d (w ++ (32 ∷ rest)) (ground (arith, h)) (ground (arith, h))
    ∙ ap (λ ws. extend c ws) (fields-word (d ∷ w) rest (ground (arith, h)) refl)

fields-last : (w : Chars) → every not_space w ≡ true → no_chars w ≡ false → fields w ≡ w ∷ []
unfolding fields every
fields-last [] h hn = ground (arith, hn)
fields-last (c ∷ []) h hn = ground (arith, h)
fields-last (c ∷ d ∷ w) h hn =
    fields-step c d w (ground (arith, h)) (ground (arith, h))
    ∙ ap (λ ws. extend c ws) (fields-last (d ∷ w) (ground (arith, h)) refl)

pub ends-append :
    (s t : Chars) → no_chars t ≡ false → ends_solid t ≡ true → ends_solid (s ++ t) ≡ true
unfolding ends_solid
ends-append [] t hn h = h
ends-append (c ∷ []) [] hn h = ground (arith, hn)
ends-append (c ∷ []) (d ∷ t) hn h = h
ends-append (c ∷ d ∷ s) t hn h = ends-append (d ∷ s) t hn h

pub ends-every : (s : Chars) → every not_space s ≡ true → no_chars s ≡ false → ends_solid s ≡ true
unfolding ends_solid every
ends-every [] h hn = ground (arith, hn)
ends-every (c ∷ []) h hn = ground (arith, h)
ends-every (c ∷ d ∷ s) h hn = ends-every (d ∷ s) (ground (arith, h)) refl

is_solid-every : (s : Chars) → every not_space s ≡ true → no_chars s ≡ false → is_solid s ≡ true
unfolding every
is_solid-every [] h hn = ground (arith, hn)
is_solid-every (c ∷ s) h hn = ground (arith, h, ends-every (c ∷ s) h hn)

keep-every : (p : ℕ → Bool) (s : Chars) → every p s ≡ true → keep p s ≡ s
unfolding keep every
keep-every p [] h = refl
keep-every p (c ∷ s) h = ground (arith, h, keep-every p s)

host_rune-safe : (c : ℕ) → is_host_rune c ≡ true → is_safe_rune c ≡ true
host_rune-safe c h = ground arith

pub sanitize-host :
    (host : Chars)
    → every is_host_rune host ≡ true
    → every not_space host ≡ true
    → no_chars host ≡ false
    → sanitize_safe_string host ≡ host
unfolding sanitize_safe_string
sanitize-host host hr hs hn =
    ap (λ t. trim_space_chars t)
      (keep-every is_safe_rune host (every_weaken is_safe_rune is_host_rune host_rune-safe host hr))
    ∙ trim-is_solid host (is_solid-every host hs hn)

-- No rune of the text is among the listed ones.
abbrev pub none_of : List ℕ → ℕ → Bool
none_of cs c = not (contains cs c)

contains-absent :
    (s : Chars) (d : ℕ) (cs : List ℕ) → every (none_of (d ∷ cs)) s ≡ true → contains s d ≡ false
unfolding every
contains-absent [] d cs h = refl
contains-absent (c ∷ s) d cs h = ground (arith, h, contains-absent s d cs)

pub first_metacharacter-none :
    (cs : List ℕ) (s : Chars) → every (none_of cs) s ≡ true → first_metacharacter cs s ≡ none
unfolding first_metacharacter
first_metacharacter-none [] s h = refl
first_metacharacter-none (d ∷ cs) s h = rw (contains-absent s d cs h) (
    first_metacharacter-none cs s
      (every_weaken (none_of cs) (none_of (d ∷ cs)) (λ c hc. ground (arith, hc)) s h))

pub digit-not_space : (c : ℕ) → is_decimal_digit c ≡ true → not_space c ≡ true
unfolding is_space
digit-not_space c h = ground arith

pub digit-no_metacharacter : (c : ℕ) → is_decimal_digit c ≡ true → none_of metacharacters c ≡ true
digit-no_metacharacter c h = ground arith

pub host_rune-no_metacharacter : (c : ℕ) → is_host_rune c ≡ true → none_of metacharacters c ≡ true
unfolding is_control
host_rune-no_metacharacter c h = ground arith

-- What is read of the line of an endpoint.
abbrev pub explicit_remote : OpenVpnEndpoint → RawRemote
explicit_remote e = record {
  host = e.host;
  port = e.port;
  has_explicit_port = true;
  raw_proto = [];
}

-- Hosts without a space, as the fields of a line are.
abbrev pub IsPlainHost : Chars → Type 0
IsPlainHost host =
    (every is_host_rune host ≡ true) × (every not_space host ≡ true) × (no_chars host ≡ false)

pub raw_remote-port :
    (host : Chars) (n : ℕ)
    → n ≤ max_int
    → raw_remote host (format_int (pos n) ∷ [])
      ≡ record { host = host; port = pos n; has_explicit_port = true; raw_proto = [] }
unfolding raw_remote
raw_remote-port host n h =
    ap
      (λ (o : Option ℤ).
        let r : RawRemote = elim o [
          | none ↦ record {
            host = host;
            port = negsuc 0;
            has_explicit_port = false;
            raw_proto = format_int (pos n);
          }
          | some p ↦ record { host = host; port = p; has_explicit_port = true; raw_proto = [] }
        ] in
        r)
      (atoi-format_int n h)

pub fields-remote_line :
    (host : Chars) (n : ℕ)
    → IsPlainHost host
    → fields (directive_line "remote" (host ++ (32 ∷ format_int (pos n))))
      ≡ chars "remote" ∷ host ∷ format_int (pos n) ∷ []
unfolding chars every is_space
fields-remote_line host n (hr, hs, hn) =
    fields-word (chars "remote") (host ++ (32 ∷ format_int (pos n))) refl refl
    ∙ ap (λ ws. chars "remote" ∷ ws)
        (fields-word host (format_int (pos n)) hs hn
          ∙ ap (λ ws. host ∷ ws)
              (fields-last (format_int (pos n))
                (every_weaken not_space is_decimal_digit digit-not_space (format_int (pos n))
                  (format_int-digits n))
                (format_int-filled n)))
