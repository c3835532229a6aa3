-- ===== src/Ovpn/Decimal.antt =====
-- strconv.Atoi reads what `%d` prints.
use super_proxy.Base.{
  ℕ, zero, suc, ◌+◌, ◌-◌, ◌*◌, ◌/◌, ◌%◌, ◌<◌, ◌≤◌, ◌≡◌, refl, ap, ◌∙◌, Bool, true, false, ◌&&◌,
  some, [], ◌∷◌, leb, ◌==◌, nat_eq, arith,
}
use super_proxy.Base.Int.{pos}
use super_proxy.Ovpn.Strings.{
  Chars, every, no_chars, digits_value, decimal_digits, format_int, int_digits, atoi, max_int,
}

abbrev pub ten_pow : ℕ → ℕ
ten_pow zero = 1
ten_pow (suc k) = 10 * ten_pow k

digit-value :
    (v d : ℕ) (rest : Chars)
    → d < 10
    → digits_value v ((48 + d) ∷ rest) ≡ digits_value (10 * v + d) rest
unfolding digits_value
digit-value v d rest h =
    let test : (leb 48 (48 + d) && leb (48 + d) 57) ≡ true = ground (arith, h) in
    let value : 10 * v + ((48 + d) - 48) ≡ 10 * v + d = omega arith in rw (test, value) refl

digits_value-decimal_digits :
    (fuel n : ℕ) (rest : Chars)
    → n < ten_pow fuel
    → digits_value 0 (decimal_digits fuel n rest) ≡ digits_value n rest
unfolding decimal_digits
digits_value-decimal_digits zero n rest h = let e : n ≡ 0 = omega (arith, h) in rw e refl
digits_value-decimal_digits (suc fuel) n rest h =
    elim (n / 10)
        as (λ q.
          n / 10 ≡ q
          → digits_value 0 (
              let written : Chars = (48 + n % 10) ∷ rest in
              elim q [ zero ↦ written | suc m ↦ decimal_digits fuel (suc m) written ])
            ≡ digits_value n rest) [
              | zero ↦ λ e.
                  digit-value 0 (n % 10) rest (omega arith)
                  ∙ ap (λ v. digits_value v rest) (omega (arith, e))
              | suc m ↦ λ e.
                  digits_value-decimal_digits fuel (suc m) ((48 + n % 10) ∷ rest)
                    (omega (arith, e, h))
                  ∙ digit-value (suc m) (n % 10) rest (omega arith)
                  ∙ ap (λ v. digits_value v rest) (omega (arith, e))
            ]
      refl

abbrev pub is_decimal_digit : ℕ → Bool
is_decimal_digit c = leb 48 c && leb c 57

every-decimal_digits :
    (fuel n : ℕ) (rest : Chars)
    → every is_decimal_digit rest ≡ true
    → every is_decimal_digit (decimal_digits fuel n rest) ≡ true
unfolding decimal_digits every
every-decimal_digits zero n rest h = h
every-decimal_digits (suc fuel) n rest h =
    let written : Chars = (48 + n % 10) ∷ rest in
    let digits : every is_decimal_digit written ≡ true = ground (arith, h) in
    elim (n / 10)
      as (λ q.
        every is_decimal_digit
          (elim q [ zero ↦ written | suc m ↦ decimal_digits fuel (suc m) written ])
        ≡ true) [ zero ↦ digits | suc m ↦ every-decimal_digits fuel (suc m) written digits ]

pub format_int-digits : (n : ℕ) → every is_decimal_digit (format_int (pos n)) ≡ true
unfolding format_int every
format_int-digits n = every-decimal_digits int_digits n [] refl

decimal_digits-filled :
    (fuel n c : ℕ) (rest : Chars) → no_chars (decimal_digits fuel n (c ∷ rest)) ≡ false
unfolding decimal_digits
decimal_digits-filled zero n c rest = refl
decimal_digits-filled (suc fuel) n c rest =
    elim (n / 10)
      as (λ q.
        let written : Chars = (48 + n % 10) ∷ c ∷ rest in
        no_chars (elim q [ zero ↦ written | suc m ↦ decimal_digits fuel (suc m) written ])
        ≡ false) [
          | zero ↦ refl
          | suc m ↦ decimal_digits-filled fuel (suc m) (48 + n % 10) (c ∷ rest)
        ]

pub format_int-filled : (n : ℕ) → no_chars (format_int (pos n)) ≡ false
unfolding format_int decimal_digits
format_int-filled n =
    elim (n / 10)
      as (λ q.
        let written : Chars = (48 + n % 10) ∷ [] in
        no_chars (elim q [ zero ↦ written | suc m ↦ decimal_digits 19 (suc m) written ]) ≡ false) [
          | zero ↦ refl
          | suc m ↦ decimal_digits-filled 19 (suc m) (48 + n % 10) []
        ]

-- A text of digits has no sign.
atoi-digits :
    (s : Chars) (n : ℕ)
    → every is_decimal_digit s ≡ true
    → no_chars s ≡ false
    → digits_value 0 s ≡ some n
    → n ≤ max_int
    → atoi s ≡ some (pos n)
unfolding atoi every
atoi-digits [] n hd hs hv hn = ground (arith, hs)
atoi-digits (c ∷ s) n hd hs hv hn =
    let minus : (c == 45) ≡ false = ground (arith, hd) in
    let plus : (c == 43) ≡ false = ground (arith, hd) in
    let fits : leb n max_int ≡ true = ground (arith, hn) in rw (minus, plus, hv, fits) refl

value_read : (n : ℕ) → digits_value n [] ≡ some n
unfolding digits_value
value_read n = refl

pub atoi-format_int : (n : ℕ) → n ≤ max_int → atoi (format_int (pos n)) ≡ some (pos n)
unfolding format_int
atoi-format_int n h =
    atoi-digits (format_int (pos n)) n (format_int-digits n) (format_int-filled n)
      (digits_value-decimal_digits int_digits n [] (omega (arith, h)) ∙ value_read n) h
