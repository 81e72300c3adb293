-- ===== src/Text/Numbers.antt =====
-- Package `strconv`, base 10.
pub mod Decimals
use openriak_operator.Prelude.{
  ℕ, zero, suc, ◌+◌, ◌-◌, ◌*◌, ◌/◌, ◌%◌, ◌^◌, String, Char, code, ◌&&◌, Option, none, some, leb,
  ltb, eqb, if◌then◌else◌,
}

-- `negsuc n` is -(n + 1).
pub data ℤ : Type 0 where
  pos : ℕ → ℤ
  negsuc : ℕ → ℤ

unfoldable pub digit_value : Char → Option ℕ
digit_value c = if leb b'0' (code c) && leb (code c) b'9' then some (code c - b'0') else none

-- The value of a run of digits read after a prefix of value `acc`; `none` at any other character.
unfoldable pub digits_value : ℕ → String → Option ℕ
unfolding digit_value
digits_value acc String.[] = some acc
digits_value acc (String.◌∷◌ c s) = elim (digit_value c) [
  | none ↦ none
  | some d ↦ digits_value (acc * 10 + d) s
]

-- Digits with no sign; the empty text is an error.
unsigned : String → Option ℕ
unfolding digits_value
unsigned String.[] = none
unsigned (String.◌∷◌ c s) = digits_value 0 (String.◌∷◌ c s)

-- -n
negate : ℕ → ℤ
negate zero = pos 0
negate (suc n) = negsuc n

positive : ℕ → Option ℕ → Option ℤ
positive bits none = none
positive bits (some n) = if ltb n (2 ^ (bits - 1)) then some (pos n) else none

negative : ℕ → Option ℕ → Option ℤ
unfolding negate
negative bits none = none
negative bits (some n) = if leb n (2 ^ (bits - 1)) then some (negate n) else none

-- strconv.ParseInt(s, 10, bits): an optional sign, then digits, within the range of `bits` bits.
unfoldable pub parse_int : ℕ → String → Option ℤ
unfolding unsigned positive negative
parse_int bits String.[] = none
parse_int bits (String.◌∷◌ c s) =
    if eqb (code c) b'-'
    then negative bits (unsigned s)
    else if eqb (code c) b'+'
    then positive bits (unsigned s)
    else positive bits (unsigned (String.◌∷◌ c s))

unfoldable pub digit_text : ℕ → Char
digit_text zero = "0"
digit_text (suc zero) = "1"
digit_text (suc (suc zero)) = "2"
digit_text (suc (suc (suc zero))) = "3"
digit_text (suc (suc (suc (suc zero)))) = "4"
digit_text (suc (suc (suc (suc (suc zero))))) = "5"
digit_text (suc (suc (suc (suc (suc (suc zero)))))) = "6"
digit_text (suc (suc (suc (suc (suc (suc (suc zero))))))) = "7"
digit_text (suc (suc (suc (suc (suc (suc (suc (suc zero)))))))) = "8"
digit_text _ = "9"

-- The digits of `n` before `tail`; the fuel is above `n`.
itoa_from : ℕ → ℕ → String → String
unfolding digit_text
itoa_from zero n tail = tail
itoa_from (suc fuel) n tail =
    let text = String.◌∷◌ (digit_text (n % 10)) tail in
    let more = itoa_from fuel (n / 10) text in if leb n 9 then text else more

-- strconv.Itoa(n), also `%d`, of a number that is not negative.
unfoldable pub itoa : ℕ → String
unfolding itoa_from
itoa n = itoa_from (n + 1) n ""
