-- ===== src/Text/Numbers/Decimals.antt =====
-- What is printed in base 10 is read back.
use openriak_operator.Prelude.{
  ℕ, zero, suc, ◌+◌, ◌-◌, ◌*◌, ◌/◌, ◌%◌, ◌^◌, ◌<◌, ◌≤◌, String, code, none, some, Bool-cases, false,
  leb→le, lt→ltb, sym, ap, inl, inr, ◌≡◌, refl, ◌∙◌, arith, leb,
}
use text.Mathlib.TextLemmas.{nil-append, cons-append}
use openriak_operator.Text.Words.{append, char_eq, after_last}
use openriak_operator.Text.Numbers.{
  digit_value, digits_value, digit_text, unsigned, positive, parse_int, pos, itoa_from, itoa,
}

digit_value-digit_text : (d : ℕ) → d < 10 → digit_value (digit_text d) ≡ some d
unfolding digit_value digit_text
digit_value-digit_text zero h = refl
digit_value-digit_text (suc zero) h = refl
digit_value-digit_text (suc (suc zero)) h = refl
digit_value-digit_text (suc (suc (suc zero))) h = refl
digit_value-digit_text (suc (suc (suc (suc zero)))) h = refl
digit_value-digit_text (suc (suc (suc (suc (suc zero))))) h = refl
digit_value-digit_text (suc (suc (suc (suc (suc (suc zero)))))) h = refl
digit_value-digit_text (suc (suc (suc (suc (suc (suc (suc zero))))))) h = refl
digit_value-digit_text (suc (suc (suc (suc (suc (suc (suc (suc zero)))))))) h = refl
digit_value-digit_text (suc (suc (suc (suc (suc (suc (suc (suc (suc zero))))))))) h = refl
digit_value-digit_text (suc (suc (suc (suc (suc (suc (suc (suc (suc (suc d)))))))))) h =
    absurd (omega (arith, h))

digits_value-digit :
    (acc d : ℕ) (tail : String)
    → d < 10
    → digits_value acc (String.◌∷◌ (digit_text d) tail) ≡ digits_value (acc * 10 + d) tail
unfolding digits_value
digits_value-digit acc d tail h = ground (arith, digit_value-digit_text d h)

digit_code : (d : ℕ) → d < 10 → code "9" ≡ code (digit_text d) + (9 - d)
unfolding digit_text
digit_code zero h = refl
digit_code (suc zero) h = refl
digit_code (suc (suc zero)) h = refl
digit_code (suc (suc (suc zero))) h = refl
digit_code (suc (suc (suc (suc zero)))) h = refl
digit_code (suc (suc (suc (suc (suc zero))))) h = refl
digit_code (suc (suc (suc (suc (suc (suc zero)))))) h = refl
digit_code (suc (suc (suc (suc (suc (suc (suc zero))))))) h = refl
digit_code (suc (suc (suc (suc (suc (suc (suc (suc zero)))))))) h = refl
digit_code (suc (suc (suc (suc (suc (suc (suc (suc (suc zero))))))))) h = refl
digit_code (suc (suc (suc (suc (suc (suc (suc (suc (suc (suc d)))))))))) h =
    absurd (omega (arith, h))

small-digit : (n : ℕ) → n ≤ 9 → n % 10 ≡ n
small-digit n h = omega (arith, h)

div_mod : (n : ℕ) → n / 10 * 10 + n % 10 ≡ n
div_mod n = omega arith

tenth : (n fuel : ℕ) → n < suc fuel → leb n 9 ≡ false → n / 10 < fuel
tenth n fuel h long = ground (arith, h, long)

-- Reading the printed digits from 0 reaches the tail with the number itself.
digits_value-itoa_from :
    (fuel n : ℕ) (tail : String)
    → n < fuel
    → digits_value 0 (itoa_from fuel n tail) ≡ digits_value n tail
unfolding itoa_from
digits_value-itoa_from zero n tail h = absurd (omega (arith, h))
digits_value-itoa_from (suc fuel) n tail h = elim (Bool-cases (leb n 9)) [
  | inl short ↦ ground (
    arith,
    short,
    digits_value-digit 0 (n % 10) tail (omega arith),
    small-digit n (leb→le n 9 short),
  )
  | inr long ↦ ground (
    arith,
    long,
    digits_value-itoa_from fuel (n / 10) (String.◌∷◌ (digit_text (n % 10)) tail)
        (tenth n fuel h long),
    digits_value-digit (n / 10) (n % 10) tail (omega arith),
    div_mod n,
  )
]

-- What is printed starts with a digit.
itoa_from-starts :
    (fuel n : ℕ) (tail : String)
    → n < fuel
    → (d : ℕ) × (s : String) × (d < 10) × (itoa_from fuel n tail ≡ String.◌∷◌ (digit_text d) s)
unfolding itoa_from
itoa_from-starts zero n tail h = absurd (omega (arith, h))
itoa_from-starts (suc fuel) n tail h = elim (Bool-cases (leb n 9)) [
  | inl short ↦ (n % 10, tail, omega arith, ground (arith, short))
  | inr long ↦
      let (d, s, small, starts) =
        itoa_from-starts fuel (n / 10) (String.◌∷◌ (digit_text (n % 10)) tail)
          (tenth n fuel h long) in
      (d, s, small, ground (arith, long, starts))
]

-- A text that starts with a digit has no sign.
parse_int-unsigned :
    (bits d : ℕ) (s : String) (n : ℕ)
    → d < 10
    → n < 2 ^ (bits - 1)
    → digits_value 0 (String.◌∷◌ (digit_text d) s) ≡ some n
    → parse_int bits (String.◌∷◌ (digit_text d) s) ≡ some (pos n)
unfolding parse_int unsigned positive
parse_int-unsigned bits d s n small h e =
    ground
      (arith, digit_value-digit_text d small, e, lt→ltb n (2 ^ (bits - 1)) h, digit_code d small)

-- A number below 2^(bits - 1) is read back from what it is printed as.
pub parse_int-itoa : (bits n : ℕ) → n < 2 ^ (bits - 1) → parse_int bits (itoa n) ≡ some (pos n)
unfolding itoa digits_value
parse_int-itoa bits n h =
    let (d, s, small, starts) = itoa_from-starts (n + 1) n "" (omega arith) in
    rw starts (
      parse_int-unsigned bits d s n small h
        (sym (ap (digits_value 0) starts) ∙ digits_value-itoa_from (n + 1) n "" (omega arith)))

digit-no_dash : (d : ℕ) → d < 10 → char_eq (digit_text d) "-" ≡ false
digit-no_dash d h = ground (arith, digit_code d h)

after_last-itoa_from :
    (fuel n : ℕ) (tail : String)
    → n < fuel
    → after_last "-" tail ≡ none
    → after_last "-" (itoa_from fuel n tail) ≡ none
unfolding itoa_from after_last
after_last-itoa_from zero n tail h e = absurd (omega (arith, h))
after_last-itoa_from (suc fuel) n tail h e =
    let none_yet : after_last "-" (String.◌∷◌ (digit_text (n % 10)) tail) ≡ none =
      ground (arith, e, digit-no_dash (n % 10) (omega arith)) in
    elim (Bool-cases (leb n 9)) [
      | inl short ↦ ground (arith, short, none_yet)
      | inr long ↦ ground (
        arith,
        long,
        after_last-itoa_from fuel (n / 10) (String.◌∷◌ (digit_text (n % 10)) tail)
            (tenth n fuel h long) none_yet,
      )
    ]

-- After the last dash of a text that ends in a dash and a number stands the number.
after_last-append :
    (s t : String) → after_last "-" t ≡ none → after_last "-" (append s (String.◌∷◌ "-" t)) ≡ some t
unfolding after_last
after_last-append String.[] t e = rw (nil-append (String.◌∷◌ "-" t)) (ground (arith, e))
after_last-append (String.◌∷◌ c s) t e =
    rw (cons-append c s (String.◌∷◌ "-" t)) (ground (arith, after_last-append s t e))

after_last-empty : after_last "-" "" ≡ none
unfolding after_last
after_last-empty = refl

-- A dash before a text is its first character.
dash-append : (t : String) → append "-" t ≡ String.◌∷◌ "-" t
dash-append t = cons-append "-" "" t ∙ ap (String.◌∷◌ "-") (nil-append t)

pub after_last-itoa :
    (s : String) (n : ℕ) → after_last "-" (append s (append "-" (itoa n))) ≡ some (itoa n)
unfolding itoa
after_last-itoa s n =
    ap (λ (t : String). after_last "-" (append s t)) (dash-append (itoa n))
    ∙ after_last-append s (itoa n)
        (after_last-itoa_from (n + 1) n "" (omega arith) after_last-empty)
