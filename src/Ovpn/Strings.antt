-- ===== src/Ovpn/Strings.antt =====
-- What internal/discovery/vpngate_ovpn.go uses of Go's strings, unicode, strconv and bufio. A text is
-- the list of its runes. The tables of letters, digits and case are the interface `Unicode`.
use Prim.Native.Char.{code}
use Prim.Native.String.{String}
use super_proxy.Base.{
  ℕ, zero, suc, ◌+◌, ◌-◌, ◌*◌, ◌/◌, ◌%◌, ◌≡◌, ◌↔◌, Bool, true, false, ◌&&◌, ◌||◌, not, Option, none,
  some, List, [], ◌∷◌, ◌++◌, if◌then◌else◌, ◌==◌, nat_eq, Eq, ltb, leb, contains, arith,
}
use super_proxy.Base.Int.{ℤ, pos, negsuc}

abbrev pub Chars : Type 0
Chars = List ℕ

-- The runes of a literal. `String` has its own `[]` and `∷`.
unfoldable pub chars : String → Chars
chars String.[] = []
chars (String.◌∷◌ c s) = code c ∷ chars s

pub record Unicode : Type 0 where
  pub is_letter : ℕ → Bool
  pub is_digit : ℕ → Bool
  pub lower_rune : ℕ → ℕ
  pub fold_rune : ℕ → ℕ

unfoldable pub chars_beq : Chars → Chars → Bool
chars_beq [] [] = true
chars_beq (c ∷ s) (d ∷ t) = (c == d) && chars_beq s t
chars_beq _ _ = false

pub chars_beq_iff : (s t : Chars) → (chars_beq s t ≡ true) ↔ (s ≡ t)
unfolding chars_beq
chars_beq_iff [] [] = ground arith
chars_beq_iff [] (d ∷ t) = ground arith
chars_beq_iff (c ∷ s) [] = ground arith
chars_beq_iff (c ∷ s) (d ∷ t) = ground (arith, chars_beq_iff s t)

instance abbrev pub chars_eq : Eq Chars
chars_eq = record { beq = chars_beq; beq_iff = chars_beq_iff }

abbrev pub no_chars : Chars → Bool
no_chars [] = true
no_chars (c ∷ s) = false

-- Every rune passes the test.
unfoldable pub every : (ℕ → Bool) → Chars → Bool
every p [] = true
every p (c ∷ s) = p c && every p s

unfoldable pub keep : (ℕ → Bool) → Chars → Chars
keep p [] = []
keep p (c ∷ s) = let rest = keep p s in if p c then c ∷ rest else rest

-- unicode.IsControl and unicode.IsSpace
unfoldable pub is_control : ℕ → Bool
is_control c = ltb c 32 || (leb 127 c && leb c 159)

abbrev far_spaces : List ℕ
far_spaces = 5760 ∷ 8232 ∷ 8233 ∷ 8239 ∷ 8287 ∷ 12288 ∷ []

unfoldable pub is_space : ℕ → Bool
is_space c =
    (leb 9 c && leb c 13)
    || (c == 32)
    || (c == 133)
    || (c == 160)
    || (leb 8192 c && leb c 8202)
    || contains far_spaces c

unfoldable pub trim_left : (ℕ → Bool) → Chars → Chars
trim_left p [] = []
trim_left p (c ∷ s) = let rest = trim_left p s in if p c then rest else c ∷ s

unfoldable pub trim_right : (ℕ → Bool) → Chars → Chars
trim_right p [] = []
trim_right p (c ∷ s) = let rest = trim_right p s in if p c && no_chars rest then [] else c ∷ rest

-- strings.Trim and strings.TrimSpace
unfoldable pub trim : (ℕ → Bool) → Chars → Chars
trim p s = trim_right p (trim_left p s)

unfoldable pub trim_space_chars : Chars → Chars
unfolding trim
trim_space_chars s = trim is_space s

unfoldable pub has_prefix : Chars → Chars → Bool
has_prefix s [] = true
has_prefix [] (d ∷ t) = false
has_prefix (c ∷ s) (d ∷ t) = (c == d) && has_prefix s t

unfoldable pub has_suffix : Chars → Chars → Bool
has_suffix [] t = no_chars t
has_suffix (c ∷ s) t = chars_beq (c ∷ s) t || has_suffix s t

-- strings.Fields: a rune goes before the word that follows it, if one follows at once.
abbrev pub extend : ℕ → List Chars → List Chars
extend c [] = (c ∷ []) ∷ []
extend c (w ∷ ws) = (c ∷ w) ∷ ws

abbrev begins_word : Chars → Bool
begins_word [] = false
begins_word (c ∷ s) = not (is_space c)

unfoldable pub fields : Chars → List Chars
fields [] = []
fields (c ∷ s) =
    let rest = fields s in
    if is_space c then rest else if begins_word s then extend c rest else (c ∷ []) ∷ rest

-- strings.Join with a space.
unfoldable pub join_args : List Chars → Chars
join_args [] = []
join_args (w ∷ []) = w
join_args (w ∷ v ∷ ws) = w ++ (32 ∷ join_args (v ∷ ws))

-- strings.Split at one rune.
unfoldable pub split_at : ℕ → Chars → List Chars
split_at sep [] = [] ∷ []
split_at sep (c ∷ s) = let rest = split_at sep s in if c == sep then [] ∷ rest else extend c rest

-- The lines of a text: no empty one after a final line break.
unfoldable pub split_lines : Chars → List Chars
split_lines [] = []
split_lines (c ∷ s) = let rest = split_lines s in if c == 10 then [] ∷ rest else extend c rest

-- Texts that are each written with a line break.
unfoldable pub unlines : List Chars → Chars
unlines [] = []
unlines (l ∷ ls) = l ++ (10 ∷ unlines ls)

abbrev rune_bytes : ℕ → ℕ
rune_bytes c = if ltb c 128 then 1 else if ltb c 2048 then 2 else if ltb c 65536 then 3 else 4

-- `len` of a string.
unfoldable pub byte_length : Chars → ℕ
byte_length [] = 0
byte_length (c ∷ s) = rune_bytes c + byte_length s

-- bufio.ScanLines drops one carriage return at the end of a line.
unfoldable pub drop_cr : Chars → Chars
drop_cr [] = []
drop_cr (c ∷ []) = if c == 13 then [] else c ∷ []
drop_cr (c ∷ d ∷ s) = c ∷ drop_cr (d ∷ s)

abbrev pub max_scan_token_size : ℕ
max_scan_token_size = 65536

-- The tokens of a bufio.Scanner, and whether it stopped at a line too long for its buffer.
unfoldable pub scan_tokens : List Chars → List Chars × Bool
scan_tokens [] = ([], false)
scan_tokens (l ∷ ls) =
    let rest = scan_tokens ls in
    if ltb (byte_length l) max_scan_token_size then (drop_cr l ∷ rest.0, rest.1) else ([], true)

-- strconv.Atoi
unfoldable pub digits_value : ℕ → Chars → Option ℕ
digits_value value [] = some value
digits_value value (c ∷ s) =
    let rest = digits_value (10 * value + (c - 48)) s in if leb 48 c && leb c 57 then rest else none

abbrev pub magnitude : Chars → Option ℕ
magnitude [] = none
magnitude (c ∷ s) = digits_value 0 (c ∷ s)

abbrev pub in_range : ℕ → ℕ → (ℕ → ℤ) → Option ℤ
in_range bound n signed = if leb n bound then some (signed n) else none

abbrev pub negated : ℕ → ℤ
negated zero = pos 0
negated (suc n) = negsuc n

abbrev pub signed_value : ℕ → (ℕ → ℤ) → Option ℕ → Option ℤ
signed_value bound signed none = none
signed_value bound signed (some n) = in_range bound n signed

abbrev pub max_int : ℕ
max_int = 9223372036854775807

unfoldable pub atoi : Chars → Option ℤ
unfolding digits_value
atoi [] = none
atoi (c ∷ s) =
    if c == 45
    then signed_value (suc max_int) negated (magnitude s)
    else if c == 43
    then signed_value max_int (λ n. pos n) (magnitude s)
    else signed_value max_int (λ n. pos n) (magnitude (c ∷ s))

-- `%d`, for numbers of at most as many digits as the fuel.
unfoldable pub decimal_digits : ℕ → ℕ → Chars → Chars
decimal_digits zero n rest = rest
decimal_digits (suc fuel) n rest =
    let written = (48 + n % 10) ∷ rest in
    elim (n / 10) [ zero ↦ written | suc m ↦ decimal_digits fuel (suc m) written ]

abbrev pub int_digits : ℕ
int_digits = 20

unfoldable pub format_int : ℤ → Chars
unfolding decimal_digits
format_int (pos n) = decimal_digits int_digits n []
format_int (negsuc n) = 45 ∷ decimal_digits int_digits (suc n) []
