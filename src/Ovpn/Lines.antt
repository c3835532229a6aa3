-- ===== src/Ovpn/Lines.antt =====
-- Lemmas on the text functions: what trimming keeps, and how a text splits into its lines.
use super_proxy.Base.{
  ℕ, zero, suc, ◌≡◌, refl, sym, Bool, true, false, ◌&&◌, not, List, [], ◌∷◌, ◌++◌, ◌==◌, nat_eq,
  if◌then◌else◌, arith, All, Bool-cases, inl, inr, ◌/◌, ◌%◌, ◌+◌,
}
use super_proxy.Base.Int.{ℤ, pos, negsuc}
use super_proxy.Ovpn.Strings.{
  Chars, every, keep, trim_left, trim_right, trim, trim_space_chars, is_space, no_chars,
  split_lines, extend, drop_cr, decimal_digits, format_int, int_digits,
}

module _ (p : ℕ → Bool) where
  pub every-keep : (s : Chars) → every p (keep p s) ≡ true
  unfolding every keep
  every-keep [] = refl
  every-keep (c ∷ s) = ground (arith, every-keep s)

  pub every-append : (s t : Chars) → every p s ≡ true → every p t ≡ true → every p (s ++ t) ≡ true
  unfolding every
  every-append [] t hs ht = ht
  every-append (c ∷ s) t hs ht = ground (arith, every-append s t, hs, ht)

  every-trim_left : (q : ℕ → Bool) (s : Chars) → every p s ≡ true → every p (trim_left q s) ≡ true
  unfolding every trim_left
  every-trim_left q [] h = refl
  every-trim_left q (c ∷ s) h = ground (arith, every-trim_left q s, h)

  every-trim_right : (q : ℕ → Bool) (s : Chars) → every p s ≡ true → every p (trim_right q s) ≡ true
  unfolding every trim_right
  every-trim_right q [] h = refl
  every-trim_right q (c ∷ s) h = ground (arith, every-trim_right q s, h)

  pub every-trim : (q : ℕ → Bool) (s : Chars) → every p s ≡ true → every p (trim q s) ≡ true
  unfolding trim
  every-trim q s h = every-trim_right q (trim_left q s) (every-trim_left q s h)

  pub every-drop_cr : (s : Chars) → every p s ≡ true → every p (drop_cr s) ≡ true
  unfolding every drop_cr
  every-drop_cr [] h = refl
  every-drop_cr (c ∷ []) h = ground arith
  every-drop_cr (c ∷ d ∷ s) h = ground (arith, every-drop_cr (d ∷ s), h)

  pub every_weaken :
      (q : ℕ → Bool)
      → ((c : ℕ) → q c ≡ true → p c ≡ true)
      → (s : Chars) → every q s ≡ true
      → every p s ≡ true
  unfolding every
  every_weaken q imp [] h = refl
  every_weaken q imp (c ∷ s) h = ground (arith, imp c, every_weaken q imp s, h)

abbrev pub in_line : ℕ → Bool
in_line c = not (c == 10)

-- A text without a line break.
abbrev pub is_line : Chars → Bool
is_line s = every in_line s

pub split_lines-line :
    (l rest : Chars) → is_line l ≡ true → split_lines (l ++ (10 ∷ rest)) ≡ l ∷ split_lines rest
unfolding every split_lines
split_lines-line [] rest h = refl
split_lines-line (c ∷ l) rest h = ground (arith, split_lines-line l rest, h)

extend-lines :
    (c : ℕ) (ls : List Chars)
    → in_line c ≡ true
    → All (λ l. is_line l ≡ true) ls
    → All (λ l. is_line l ≡ true) (extend c ls)
unfolding every
extend-lines c [] h hs = ground arith
extend-lines c (l ∷ ls) h hs = ground arith

pub split_lines-lines : (s : Chars) → All (λ l. is_line l ≡ true) (split_lines s)
unfolding every split_lines
split_lines-lines [] = ground arith
split_lines-lines (c ∷ s) = elim (Bool-cases (c == 10)) [
  | inl p ↦ rw p (refl, split_lines-lines s)
  | inr p ↦ rw p (extend-lines c (split_lines s) (ground arith) (split_lines-lines s))
]

digits-line :
    (fuel n : ℕ) (rest : Chars) → is_line rest ≡ true → is_line (decimal_digits fuel n rest) ≡ true
unfolding every decimal_digits
digits-line zero n rest h = h
digits-line (suc fuel) n rest h =
    elim (n / 10)
      as (λ q.
        let written : Chars = (48 + n % 10) ∷ rest in
        is_line (elim q [ zero ↦ written | suc m ↦ decimal_digits fuel (suc m) written ]) ≡ true) [
          | zero ↦ ground arith
          | suc m ↦ digits-line fuel (suc m) ((48 + n % 10) ∷ rest) (ground arith)
        ]

pub format_int-line : (z : ℤ) → is_line (format_int z) ≡ true
unfolding format_int every
format_int-line (pos n) = digits-line int_digits n [] refl
format_int-line (negsuc n) = digits-line int_digits (suc n) [] refl

-- A text that begins and ends with no space.
abbrev pub starts_solid : Chars → Bool
starts_solid [] = false
starts_solid (c ∷ s) = not (is_space c)

unfoldable pub ends_solid : Chars → Bool
ends_solid [] = false
ends_solid (c ∷ []) = not (is_space c)
ends_solid (c ∷ d ∷ s) = ends_solid (d ∷ s)

abbrev pub is_solid : Chars → Bool
is_solid s = starts_solid s && ends_solid s

starts-trim_left :
    (s : Chars) → starts_solid (trim_left is_space s) ≡ not (no_chars (trim_left is_space s))
unfolding trim_left
starts-trim_left [] = refl
starts-trim_left (c ∷ s) = ground (arith, starts-trim_left s)

starts-trim_right :
    (s : Chars) → starts_solid s ≡ true → starts_solid (trim_right is_space s) ≡ true
unfolding trim_right
starts-trim_right [] h = h
starts-trim_right (c ∷ s) h = ground arith

ends-cons :
    (c : ℕ) (r : Chars)
    → ends_solid r ≡ not (no_chars r)
    → let t : Chars = if is_space c && no_chars r then [] else c ∷ r in
      ends_solid t ≡ not (no_chars t)
unfolding ends_solid
ends-cons c [] h = ground arith
ends-cons c (d ∷ r) h = ground arith

ends-trim_right :
    (s : Chars) → ends_solid (trim_right is_space s) ≡ not (no_chars (trim_right is_space s))
unfolding trim_right ends_solid
ends-trim_right [] = refl
ends-trim_right (c ∷ s) = ends-cons c (trim_right is_space s) (ends-trim_right s)

trim_right-starts :
    (t : Chars)
    → starts_solid t ≡ not (no_chars t)
    → no_chars (trim_right is_space t) ≡ false
    → starts_solid (trim_right is_space t) ≡ true
unfolding trim_right
trim_right-starts [] e n = sym n
trim_right-starts (c ∷ t) e n = starts-trim_right (c ∷ t) e

pub trim-solid :
    (s : Chars) → no_chars (trim_space_chars s) ≡ false → is_solid (trim_space_chars s) ≡ true
unfolding trim_space_chars trim
trim-solid s h = ground (
  arith,
  ends-trim_right (trim_left is_space s),
  trim_right-starts (trim_left is_space s) (starts-trim_left s) h,
  h,
)

pub trim_right-ends : (s : Chars) → ends_solid s ≡ true → trim_right is_space s ≡ s
unfolding trim_right ends_solid
trim_right-ends [] h = refl
trim_right-ends (c ∷ []) h = ground (arith, h)
trim_right-ends (c ∷ d ∷ s) h = rw (trim_right-ends (d ∷ s) h) ground arith

pub trim-is_solid : (s : Chars) → is_solid s ≡ true → trim_space_chars s ≡ s
unfolding trim_space_chars trim trim_left
trim-is_solid [] h = ground arith
trim-is_solid (c ∷ s) h =
    let e : is_space c ≡ false = ground (arith, h) in
    rw e (trim_right-ends (c ∷ s) (ground (arith, h)))
