-- ===== src/Trust/Pem.antt =====
-- parsePEMCerts of internal/controller/trust.go over encoding/pem and crypto/x509, which are an
-- interface: their code is not in the repository. Bytes are texts.
pub mod Loop
use Prim.Native.String.{len}
use openriak_operator.Prelude.{
  ℕ, zero, suc, ◌<◌, String, List, [], ◌∷◌, Option, none, some, Result, ok, err, ◌≡◌, ◌==◌,
  if◌then◌else◌,
}
use openriak_operator.Text.{append}

pub record PemBlock : Type 0 where
  pub block_type : String
  pub bytes : String

-- x509.Certificate, as far as it is read.
pub record Certificate : Type 0 where
  pub raw : String
  pub common_name : String
  pub not_after : ℕ

-- The concatenation of texts that may fail.
unfoldable pub encode_all : (String → Result String) → List String → Result String
encode_all encode [] = ok ""
encode_all encode (raw ∷ raws) = elim (encode raw) [
  | err e ↦ err e
  | ok first ↦ elim (encode_all encode raws) [ err e ↦ err e | ok rest ↦ ok (append first rest) ]
]

-- pem.Decode and pem.Encode of a CERTIFICATE block, x509.ParseCertificate, the certificates that
-- CertPool.AppendCertsFromPEM adds to an empty pool (none where it answers false), and Verify of a
-- leaf for client authentication with roots, intermediates and a time: its error, if it fails. A
-- block that was decoded leaves less to decode, the raw part of a certificate is what it was parsed
-- from, and a block that was encoded is decoded again in front of nothing or of more such blocks.
pub record X509 : Type 0 where
  pub decode_pem : String → Option (PemBlock × String)
  pub encode_pem : String → Result String
  pub parse_certificate : String → Result Certificate
  pub certs_from_pem : String → Option (List Certificate)
  pub verify : Certificate → List Certificate → List Certificate → ℕ → Option String
  pub rest_shorter :
      (text rest : String) (block : PemBlock)
      → decode_pem text ≡ some (block, rest)
      → len rest < len text
  pub decode_nothing : decode_pem "" ≡ none
  pub raw-parse :
      (bytes : String) (c : Certificate) → parse_certificate bytes ≡ ok c → c.raw ≡ bytes
  pub decode-encode :
      (raws : List String) (raw first rest : String)
      → encode_pem raw ≡ ok first
      → encode_all encode_pem raws ≡ ok rest
      → decode_pem (append first rest)
        ≡ some (record { block_type = "CERTIFICATE"; bytes = raw }, rest)

abbrev pub add_parsed : Result Certificate → Result (List Certificate) → Result (List Certificate)
add_parsed (err e) rest = err (append "invalid certificate: " e)
add_parsed (ok c) (err e) = err e
add_parsed (ok c) (ok cs) = ok (c ∷ cs)

module _ (x : X509) where
  -- The loop; every round but the last takes a block off the text.
  unfoldable pub parse_blocks : ℕ → String → Result (List Certificate)
  parse_blocks zero text = ok []
  parse_blocks (suc fuel) text = elim (x.decode_pem text) [
    | none ↦ ok []
    | some (block, rest) ↦
        let others = parse_blocks fuel rest in
        if block.block_type == "CERTIFICATE"
        then add_parsed (x.parse_certificate block.bytes) others
        else others
  ]

  unfoldable pub parse_pem_certs : String → Result (List Certificate)
  unfolding parse_blocks
  parse_pem_certs text = parse_blocks (suc (len text)) text
