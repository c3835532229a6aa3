-- ===== src/Ovpn/Reader.antt =====
-- How OpenVPN reads a configuration: every line outside of the inline blocks is a directive, which the
-- word before its first space names. `is_safe_output` tells that all of them are harmless.
use super_proxy.Base.{
  ◌≡◌, Bool, true, false, ◌&&◌, ◌||◌, not, List, [], ◌∷◌, ◌++◌, ◌==◌, nat_eq, if◌then◌else◌, All,
  contains, map,
}
use super_proxy.Ovpn.Strings.{Chars, chars, chars_eq, has_prefix, split_lines, unlines}
use super_proxy.Ovpn.Checks.{disallowed_directives}
use super_proxy.Ovpn.Lines.{is_line, is_solid, split_lines-line}

-- The directives that the canonical configuration may have, and its comment.
unfoldable pub canonical_words : List Chars
unfolding chars
canonical_words = map chars (
    "#" ∷ "client" ∷ "dev" ∷ "dev-type" ∷ "proto" ∷ "remote" ∷ "nobind" ∷ "route-nopull" ∷ "cipher"
    ∷ "data-ciphers" ∷ "auth" ∷ "remote-cert-tls" ∷ "verify-x509-name" ∷ "tls-version-min" ∷ [])

unfoldable pub first_word : Chars → Chars
first_word [] = []
first_word (c ∷ s) = let rest = first_word s in if c == 32 then [] else c ∷ rest

-- One of the canonical directives, and no disallowed one.
unfoldable pub is_safe_directive : Chars → Bool
unfolding first_word canonical_words disallowed_directives
is_safe_directive line =
    contains canonical_words (first_word line)
    && not (contains disallowed_directives (first_word line))

abbrev pub opens_block : Chars → Bool
opens_block line = has_prefix line (chars "<")

abbrev pub closes_block : Chars → Bool
closes_block line = has_prefix line (chars "</")

abbrev pub inside_after : Bool → Chars → Bool
inside_after inside line = if inside then not (closes_block line) else opens_block line

unfoldable pub read_directives : Bool → List Chars → List Chars
unfolding has_prefix chars
read_directives inside [] = []
read_directives inside (line ∷ lines) =
    let rest = read_directives (inside_after inside line) lines in
    if inside || opens_block line then rest else line ∷ rest

unfoldable pub all_safe : List Chars → Bool
unfolding is_safe_directive
all_safe [] = true
all_safe (line ∷ lines) = is_safe_directive line && all_safe lines

-- Of texts that are written with a line break each.
unfoldable pub is_safe_output : Bool → List Chars → Bool
unfolding all_safe read_directives split_lines unlines
is_safe_output inside written = all_safe (read_directives inside (split_lines (unlines written)))

pub is_safe_output-directive :
    (l : Chars) (rest : List Chars)
    → is_line l ≡ true
    → opens_block l ≡ false
    → is_safe_directive l ≡ true
    → is_safe_output false rest ≡ true
    → is_safe_output false (l ∷ rest) ≡ true
unfolding is_safe_output read_directives all_safe unlines
is_safe_output-directive l rest hl ho hs hr = rw (split_lines-line l (unlines rest) hl, ho, hs) hr

pub is_safe_output-opening :
    (l : Chars) (rest : List Chars)
    → is_line l ≡ true
    → opens_block l ≡ true
    → is_safe_output true rest ≡ true
    → is_safe_output false (l ∷ rest) ≡ true
unfolding is_safe_output read_directives all_safe unlines
is_safe_output-opening l rest hl ho hr = rw (split_lines-line l (unlines rest) hl, ho) hr

-- Inside of a block a line is skipped.
pub is_safe_output-inside :
    (l : Chars) (rest : List Chars)
    → is_line l ≡ true
    → is_safe_output (not (closes_block l)) rest ≡ true
    → is_safe_output true (l ∷ rest) ≡ true
unfolding is_safe_output read_directives all_safe unlines
is_safe_output-inside l rest hl hr = rw (split_lines-line l (unlines rest) hl) hr

-- Lines as an inline block may hold them.
abbrev pub IsInlineLine : Chars → Type 0
IsInlineLine l = (is_line l ≡ true) × (is_solid l ≡ true) × (closes_block l ≡ false)

-- The text of an inline block: such lines, each with its line break.
abbrev pub IsInline : Chars → Type 0
IsInline content = (ls : List Chars) × (content ≡ unlines ls) × All IsInlineLine ls

pub is_safe_output-lines :
    (ls : List Chars) (rest : List Chars)
    → All IsInlineLine ls
    → is_safe_output true rest ≡ true
    → is_safe_output true (ls ++ rest) ≡ true
is_safe_output-lines [] rest h hr = hr
is_safe_output-lines (l ∷ ls) rest (h, hs) hr =
    is_safe_output-inside l (ls ++ rest) h.0 (rw h.2 (is_safe_output-lines ls rest hs hr))
