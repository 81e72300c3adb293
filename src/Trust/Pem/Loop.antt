-- ===== src/Trust/Pem/Loop.antt =====
-- The loop of parsePEMCerts of internal/controller/trust.go as a relation without fuel.
use Prim.Native.String.{len}
use openriak_operator.Prelude.{
  ℕ, zero, suc, ◌<◌, String, true, false, List, [], none, some, Result, ok, err, ◌≡◌, ◌==◌, refl,
  arith, Bool-cases, Option-cases, Result-cases, inl, inr, ap,
}
use openriak_operator.Text.{append}
use openriak_operator.Trust.Pem.{
  PemBlock, Certificate, X509, add_parsed, parse_blocks, parse_pem_certs,
}

module _ (x : X509) where
  -- `Parses text r`: the loop on `text` ends, and its result is `r`.
  pub data Parses : String → Result (List Certificate) → Type 0 where
    no_block : {text : String} → x.decode_pem text ≡ none → Parses text (ok [])
    skipped :
        {text rest : String} {block : PemBlock} {r : Result (List Certificate)}
        → x.decode_pem text ≡ some (block, rest)
        → (block.block_type == "CERTIFICATE") ≡ false
        → Parses rest r
        → Parses text r
    invalid :
        {text rest : String} {block : PemBlock} {e : String}
        → x.decode_pem text ≡ some (block, rest)
        → (block.block_type == "CERTIFICATE") ≡ true
        → x.parse_certificate block.bytes ≡ err e
        → Parses text (err (append "invalid certificate: " e))
    parsed :
        {text rest : String} {block : PemBlock} {c : Certificate} {r : Result (List Certificate)}
        → x.decode_pem text ≡ some (block, rest)
        → (block.block_type == "CERTIFICATE") ≡ true
        → x.parse_certificate block.bytes ≡ ok c
        → Parses rest r
        → Parses text (add_parsed (ok c) r)

  parse_blocks-Parses :
      (fuel : ℕ) (text : String) → len text < fuel → Parses text (parse_blocks x fuel text)
  unfolding parse_blocks
  parse_blocks-Parses zero text h = absurd (omega (arith, h))
  parse_blocks-Parses (suc fuel) text h = elim (Option-cases (x.decode_pem text)) [
    | inl none_left ↦ rw (none_left, parse_blocks) (no_block none_left)
    | inr ((block, rest), taken) ↦
        let shorter = x.rest_shorter text rest block taken in
        let later = parse_blocks-Parses fuel rest (omega (arith, h, shorter)) in
        elim (Bool-cases (block.block_type == "CERTIFICATE")) [
          | inl is_cert ↦ elim (Result-cases (x.parse_certificate block.bytes)) [
            | inl (e, bad) ↦ rw (taken, is_cert, bad, parse_blocks) (invalid taken is_cert bad)
            | inr (c, good) ↦
                rw (taken, is_cert, good, parse_blocks) (parsed taken is_cert good later)
          ]
          | inr other ↦ rw (taken, other, parse_blocks) (skipped taken other later)
        ]
  ]

  -- parsePEMCerts ends on every input, and what it returns is the result of its loop.
  pub parse_pem_certs-Parses : (text : String) → Parses text (parse_pem_certs x text)
  unfolding parse_pem_certs
  parse_pem_certs-Parses text = parse_blocks-Parses (suc (len text)) text (omega arith)

  Parses-parse_blocks :
      {text : String} {r : Result (List Certificate)}
      → Parses text r
      → (fuel : ℕ) → len text < fuel
      → parse_blocks x fuel text ≡ r
  unfolding parse_blocks
  Parses-parse_blocks p zero h = absurd (omega (arith, h))
  Parses-parse_blocks (no_block nothing) (suc fuel) h = rw (nothing, parse_blocks) refl
  Parses-parse_blocks (skipped {text} {rest} {block} taken other p) (suc fuel) h =
      let shorter = x.rest_shorter text rest block taken in
      rw (taken, other, parse_blocks) (Parses-parse_blocks p fuel (omega (arith, h, shorter)))
  Parses-parse_blocks (invalid {block} taken is_cert bad) (suc fuel) h =
      rw (taken, is_cert, bad, parse_blocks) refl
  Parses-parse_blocks (parsed {text} {rest} {block} {c} {r} taken is_cert good p) (suc fuel) h =
      let shorter = x.rest_shorter text rest block taken in
      rw (taken, is_cert, good, parse_blocks)
        (ap (add_parsed (ok c)) (Parses-parse_blocks p fuel (omega (arith, h, shorter))))

  pub Parses-parse_pem_certs :
      {text : String} {r : Result (List Certificate)} → Parses text r → parse_pem_certs x text ≡ r
  unfolding parse_pem_certs
  Parses-parse_pem_certs {text} p = Parses-parse_blocks p (suc (len text)) (omega arith)
