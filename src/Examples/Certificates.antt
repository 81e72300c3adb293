-- ===== src/Examples/Certificates.antt =====
-- The interface to the PEM and X.509 packages filled by a code of its own: a block is its characters,
-- each behind a 1, and a 0 at the end.
use Prim.Native.Char.{len_utf8}
use Prim.Native.String.{len}
use Prim.Native.String.len
use text.Mathlib.TextLemmas.{nil-append, cons-append}
use text.Mathlib.TextPositions.{len_utf8-pos}
use openriak_operator.Prelude.{
  ◌+◌, ◌<◌, String, Char, List, [], Option, none, some, Result, ok, ◌≡◌, refl, sym, ap, subst, ◌∙◌,
  arith, ◌==◌, if◌then◌else◌, Bool-cases, Option-cases, inl, inr,
}
use openriak_operator.Text.{append, char_eq}
use openriak_operator.Trust.Pem.{X509, PemBlock, Certificate, encode_all}

abbrev encode_block : String → String
encode_block String.[] = "0"
encode_block (String.◌∷◌ c s) = String.◌∷◌ "1" (String.◌∷◌ c (encode_block s))

abbrev push_char : Char → Option (PemBlock × String) → Option (PemBlock × String)
push_char c none = none
push_char c (some (block, rest)) =
    some (record { block_type = "CERTIFICATE"; bytes = String.◌∷◌ c block.bytes }, rest)

abbrev decode_block : String → Option (PemBlock × String)
decode_block String.[] = none
decode_block (String.◌∷◌ d String.[]) =
    if char_eq d "0" then some (record { block_type = "CERTIFICATE"; bytes = "" }, "") else none
decode_block (String.◌∷◌ d (String.◌∷◌ c s)) =
    let inner = decode_block s in
    if char_eq d "0"
    then some (record { block_type = "CERTIFICATE"; bytes = "" }, String.◌∷◌ c s)
    else push_char c inner

at_end :
    (rest : String)
    → decode_block (String.◌∷◌ "0" rest)
      ≡ some (record { block_type = "CERTIFICATE"; bytes = "" }, rest)
at_end String.[] = refl
at_end (String.◌∷◌ c s) = refl

decode-encode_block :
    (raw rest : String)
    → decode_block (append (encode_block raw) rest)
      ≡ some (record { block_type = "CERTIFICATE"; bytes = raw }, rest)
decode-encode_block String.[] rest =
    ap decode_block (cons-append "0" "" rest ∙ ap (String.◌∷◌ "0") (nil-append rest)) ∙ at_end rest
decode-encode_block (String.◌∷◌ c s) rest =
    ap decode_block (
      cons-append "1" (String.◌∷◌ c (encode_block s)) rest
      ∙ ap (String.◌∷◌ "1") (cons-append c (encode_block s) rest))
    ∙ ap (push_char c) (decode-encode_block s rest)

len-cons : (c : Char) (s : String) → len s < len (String.◌∷◌ c s)
len-cons c s =
    let (k, positive) = len_utf8-pos c in
    let counted : len (String.◌∷◌ c s) ≡ len_utf8 c + len s = λ i. len.cons c s i in
    omega (arith, counted, positive)

pub rest_shorter_block :
    (text rest : String) (block : PemBlock)
    → decode_block text ≡ some (block, rest)
    → len rest < len text
rest_shorter_block String.[] rest block e = absurd (ground (arith, e))
rest_shorter_block (String.◌∷◌ d String.[]) rest block e = elim (Bool-cases (char_eq d "0")) [
  | inl ends ↦
      let same : "" ≡ rest = ground (arith, ends, e) in
      subst (λ r. len r < len (String.◌∷◌ d String.[])) same (len-cons d "")
  | inr other ↦ absurd (ground (arith, other, e))
]
rest_shorter_block (String.◌∷◌ d (String.◌∷◌ c s)) rest block e =
    elim (Bool-cases (char_eq d "0")) [
      | inl ends ↦
          let same : String.◌∷◌ c s ≡ rest = ground (arith, ends, e) in
          subst (λ r. len r < len (String.◌∷◌ d (String.◌∷◌ c s))) same
            (len-cons d (String.◌∷◌ c s))
      | inr goes_on ↦ elim (Option-cases (decode_block s)) [
        | inl nothing ↦ absurd (ground (arith, goes_on, nothing, e))
        | inr ((inner, left), taken) ↦
            let same : left ≡ rest = ground (arith, goes_on, taken, e) in
            omega (
              arith,
              subst (λ r. len r < len s) same (rest_shorter_block s left inner taken),
              len-cons c s,
              len-cons d (String.◌∷◌ c s),
            )
      ]
    ]

-- A certificate is its bytes, which are also its CommonName; it expires at 5000.
abbrev parse_block : String → Result Certificate
parse_block bytes = ok (record { raw = bytes; common_name = bytes; not_after = 5000 })

pub raw-parse_block : (bytes : String) (c : Certificate) → parse_block bytes ≡ ok c → c.raw ≡ bytes
raw-parse_block bytes c e = ground (arith, e)

abbrev encoded_block : String → Result String
encoded_block raw = ok (encode_block raw)

pub decode-encoded_block :
    (raws : List String) (raw first rest : String)
    → encoded_block raw ≡ ok first
    → encode_all encoded_block raws ≡ ok rest
    → decode_block (append first rest)
      ≡ some (record { block_type = "CERTIFICATE"; bytes = raw }, rest)
decode-encoded_block raws raw first rest e f =
    let same : encode_block raw ≡ first = ground (arith, e) in
    ap (λ t. decode_block (append t rest)) (sym same) ∙ decode-encode_block raw rest

-- Every certificate is accepted where there is a CA at all.
abbrev pub block_x509 : X509
block_x509 = record {
  decode_pem = decode_block;
  encode_pem = encoded_block;
  parse_certificate = parse_block;
  certs_from_pem = λ text. if text == "" then none else some [];
  verify = λ leaf roots intermediates now. none;
  rest_shorter = rest_shorter_block;
  decode_nothing = refl;
  raw-parse = raw-parse_block;
  decode-encode = decode-encoded_block;
}
