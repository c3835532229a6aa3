-- ===== src/Ovpn/Blocks.antt =====
-- An inline block that GenerateSafeOpenVPNConfig of internal/discovery/vpngate_ovpn.go writes, trimmed
-- of its last line break, is read as a block.
use mathlib.Core.List.{append_assoc}
use super_proxy.Base.{
  ◌≡◌, refl, ◌∙◌, ap, Bool, true, false, List, [], ◌∷◌, ◌++◌, if◌then◌else◌, arith, All,
}
use super_proxy.Ovpn.Strings.{
  Chars, trim_right, trim_left, trim, trim_space_chars, is_space, no_chars, unlines, split_lines,
}
use super_proxy.Ovpn.Lines.{is_line, is_solid, trim_right-ends}
use super_proxy.Ovpn.Reader.{
  IsInlineLine, IsInline, opens_block, closes_block, all_safe, read_directives, is_safe_output,
  is_safe_output-opening, is_safe_output-inside, is_safe_output-lines,
}

trim_right-append :
    (l b : Chars)
    → no_chars (trim_right is_space b) ≡ false
    → trim_right is_space (l ++ b) ≡ l ++ trim_right is_space b
unfolding trim_right
trim_right-append [] b h = refl
trim_right-append (c ∷ l) b h = rw (trim_right-append l b h) (ground (arith, filled l b h))
  where
    filled :
        (l b : Chars)
        → no_chars (trim_right is_space b) ≡ false
        → no_chars (l ++ trim_right is_space b) ≡ false
    filled [] b h = h
    filled (c ∷ l) b h = refl

trim_right-spaces :
    (l b : Chars)
    → trim_right is_space b ≡ []
    → trim_right is_space (l ++ b) ≡ trim_right is_space l
unfolding trim_right
trim_right-spaces [] b h = h
trim_right-spaces (c ∷ l) b h = rw (trim_right-spaces l b h) refl

-- The lines of a block without the last line break.
abbrev join_lines : Chars → List Chars → Chars
join_lines l [] = l
join_lines l (m ∷ ls) = l ++ (10 ∷ join_lines m ls)

join_lines-filled :
    (l : Chars) (ls : List Chars) → is_solid l ≡ true → no_chars (join_lines l ls) ≡ false
join_lines-filled [] ls h = ground (arith, h)
join_lines-filled (c ∷ l) [] h = refl
join_lines-filled (c ∷ l) (m ∷ ls) h = refl

trim_right-break :
    (t : Chars)
    → no_chars (trim_right is_space t) ≡ false
    → trim_right is_space (10 ∷ t) ≡ 10 ∷ trim_right is_space t
unfolding trim_right is_space
trim_right-break t h = rw h refl

one_break : trim_right is_space (10 ∷ []) ≡ []
unfolding trim_right is_space
one_break = refl

trim_right-unlines :
    (l : Chars) (ls : List Chars)
    → All IsInlineLine (l ∷ ls)
    → trim_right is_space (unlines (l ∷ ls)) ≡ join_lines l ls
unfolding unlines
trim_right-unlines l [] (h, hs) =
    trim_right-spaces l (10 ∷ []) one_break ∙ trim_right-ends l (ground (arith, h.1))
trim_right-unlines l (m ∷ ls) (h, hs) =
    let ih : trim_right is_space (unlines (m ∷ ls)) ≡ join_lines m ls =
      trim_right-unlines m ls hs in
    let filled : no_chars (trim_right is_space (unlines (m ∷ ls))) ≡ false =
      ap (λ t. no_chars t) ih ∙ join_lines-filled m ls hs.0.1 in
    let whole : trim_right is_space (10 ∷ unlines (m ∷ ls)) ≡ 10 ∷ join_lines m ls =
      trim_right-break (unlines (m ∷ ls)) filled ∙ ap (λ t. 10 ∷ t) ih in
    trim_right-append l (10 ∷ unlines (m ∷ ls)) (ap (λ t. no_chars t) whole)
    ∙ ap (λ t. l ++ t) whole

trim_left-solid : (s t : Chars) → is_solid s ≡ true → trim_left is_space (s ++ t) ≡ s ++ t
unfolding trim_left
trim_left-solid [] t h = ground arith
trim_left-solid (c ∷ s) t h = ground (arith, h)

trim-unlines :
    (l : Chars) (ls : List Chars)
    → All IsInlineLine (l ∷ ls)
    → trim_space_chars (unlines (l ∷ ls)) ≡ join_lines l ls
unfolding trim_space_chars trim unlines
trim-unlines l ls h =
    ap (λ t. trim_right is_space t) (trim_left-solid l (10 ∷ unlines ls) h.0.1)
    ∙ trim_right-unlines l ls h

unlines-join_lines :
    (l : Chars) (ls rest : List Chars)
    → unlines (join_lines l ls ∷ rest) ≡ unlines ((l ∷ ls) ++ rest)
unfolding unlines
unlines-join_lines l [] rest = refl
unlines-join_lines l (m ∷ ls) rest =
    append_assoc l (10 ∷ join_lines m ls) (10 ∷ unlines rest)
    ∙ ap (λ t. l ++ (10 ∷ t)) (unlines-join_lines m ls rest)

unlines-filled :
    (l : Chars) (ls : List Chars) → is_solid l ≡ true → no_chars (unlines (l ∷ ls)) ≡ false
unfolding unlines
unlines-filled [] ls h = ground (arith, h)
unlines-filled (c ∷ l) ls h = refl

same_text :
    (inside : Bool) (ls ms : List Chars)
    → unlines ls ≡ unlines ms
    → is_safe_output inside ms ≡ true
    → is_safe_output inside ls ≡ true
unfolding is_safe_output
same_text inside ls ms e h = ap (λ t. all_safe (read_directives inside (split_lines t))) e ∙ h

content-IsSafe :
    (l : Chars) (ls : List Chars) (closing : Chars) (rest : List Chars)
    → All IsInlineLine (l ∷ ls)
    → is_line closing ≡ true
    → closes_block closing ≡ true
    → is_safe_output false rest ≡ true
    → is_safe_output true (join_lines l ls ∷ closing ∷ rest) ≡ true
content-IsSafe l ls closing rest h hc hd hr =
    same_text true (join_lines l ls ∷ closing ∷ rest) ((l ∷ ls) ++ (closing ∷ rest))
      (unlines-join_lines l ls (closing ∷ rest))
      (is_safe_output-lines (l ∷ ls) (closing ∷ rest) h
        (is_safe_output-inside closing rest hc (rw hd hr)))

-- Reading goes on after the closing tag as if the block was not there.
pub trimmed_block-IsSafe :
    (opening closing content : Chars) (rest : List Chars)
    → is_line opening ≡ true
    → opens_block opening ≡ true
    → is_line closing ≡ true
    → closes_block closing ≡ true
    → IsInline content
    → is_safe_output false rest ≡ true
    → is_safe_output false
        (if no_chars content then rest else opening ∷ trim_space_chars content ∷ closing ∷ rest)
      ≡ true
unfolding unlines
trimmed_block-IsSafe opening closing content rest ho hb hc hd ([], e, h) hr =
    let empty : no_chars content ≡ true = ap (λ t. no_chars t) e in rw empty hr
trimmed_block-IsSafe opening closing content rest ho hb hc hd (l ∷ ls, e, h) hr =
    let filled : no_chars content ≡ false = ap (λ t. no_chars t) e ∙ unlines-filled l ls h.0.1 in
    let trimmed : trim_space_chars content ≡ join_lines l ls =
      ap (λ t. trim_space_chars t) e ∙ trim-unlines l ls h in
    rw (filled, trimmed)
      (is_safe_output-opening opening (join_lines l ls ∷ closing ∷ rest) ho hb
        (content-IsSafe l ls closing rest h hc hd hr))
