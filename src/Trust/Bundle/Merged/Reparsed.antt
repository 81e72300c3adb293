-- ===== src/Trust/Bundle/Merged/Reparsed.antt =====
-- A bundle that mergeCABundle wrote is read back by parsePEMCerts.
use openriak_operator.Prelude.{
  String, List, [], ◌∷◌, Result, ok, err, ◌≡◌, refl, sym, ap, ◌∙◌, subst, arith, Bool-cases,
  Result-cases, inl, inr, All, All-append, ℕ, length,
}
use openriak_operator.Text.{append, mem, NoRepeats}
use openriak_operator.Trust.Pem.{X509, Certificate, parse_pem_certs, encode_all}
use openriak_operator.Trust.Pem.Loop.{
  Parses, no_block, skipped, invalid, parsed, parse_pem_certs-Parses, Parses-parse_pem_certs,
}
use openriak_operator.Trust.Bundle.{merge_ca_bundle}
use openriak_operator.Trust.Bundle.Merged.{
  fresh, raws, AllParsed, no_inputs, one_more, merge_ca_bundle-IsMerged, ok_injective,
}

module _ (x : X509) where
  abbrev Reparses : Certificate → Type 0
  Reparses c = x.parse_certificate c.raw ≡ ok c

  abbrev IsRaw : String → Type 0
  IsRaw r = (c : Certificate) × (c.raw ≡ r) × (x.parse_certificate r ≡ ok c)

  Parses-Reparses :
      {text : String} {r : Result (List Certificate)} (cs : List Certificate)
      → Parses x text r
      → r ≡ ok cs
      → All Reparses cs
  Parses-Reparses cs (no_block nothing) e = subst (All Reparses) (ok_injective e) tt
  Parses-Reparses cs (skipped taken other p) e = Parses-Reparses cs p e
  Parses-Reparses cs (invalid taken is_cert bad) e = absurd (ground (arith, e))
  Parses-Reparses cs (parsed {r = err why} taken is_cert good p) e = absurd (ground (arith, e))
  Parses-Reparses cs (parsed {block = block} {c = c} {r = ok ds} taken is_cert good p) e =
      subst (All Reparses) (ok_injective e)
        (ap x.parse_certificate (x.raw-parse block.bytes c good) ∙ good, Parses-Reparses ds p refl)

  AllParsed-Reparses :
      {inputs : List String} {cs : List Certificate} → AllParsed x inputs cs → All Reparses cs
  AllParsed-Reparses no_inputs = tt
  AllParsed-Reparses (one_more {input} {inputs} {cs} {ds} good rest) =
      All-append Reparses cs ds (Parses-Reparses cs (parse_pem_certs-Parses x input) good)
        (AllParsed-Reparses rest)

  fresh-IsRaw :
      (seen : List String) (cs : List Certificate)
      → All Reparses cs
      → All IsRaw (fresh seen (raws x cs))
  unfolding fresh
  fresh-IsRaw seen [] h = tt
  fresh-IsRaw seen (c ∷ cs) h = elim (Bool-cases (mem c.raw seen)) [
    | inl known ↦ rw known (fresh-IsRaw seen cs h.1)
    | inr unseen ↦ rw unseen ((c, refl, h.0), fresh-IsRaw (c.raw ∷ seen) cs h.1)
  ]

  Parses-encode_all :
      (kept : List String) (text : String)
      → All IsRaw kept
      → encode_all x.encode_pem kept ≡ ok text
      → (ks : List Certificate) × Parses x text (ok ks) × (raws x ks ≡ kept)
  unfolding encode_all
  Parses-encode_all [] text h e =
      ([], subst (λ t. Parses x t (ok [])) (ok_injective e) (no_block x.decode_nothing), refl)
  Parses-encode_all (r ∷ rs) text h e = elim (Result-cases (x.encode_pem r)) [
    | inl (why, bad) ↦ absurd (ground (arith, bad, e))
    | inr (first, encoded) ↦ elim (Result-cases (encode_all x.encode_pem rs)) [
      | inl (why, bad) ↦ absurd (ground (arith, encoded, bad, e))
      | inr (rest, others) ↦
          let (c, is_raw, good) = h.0 in
          let (ks, p, same) = Parses-encode_all rs rest h.1 others in
          let whole : append first rest ≡ text = ground (arith, encoded, others, e) in
          (
            c ∷ ks,
            subst (λ t. Parses x t (ok (c ∷ ks))) whole
                (parsed (x.decode-encode rs r first rest encoded others) refl good p),
            rw (is_raw, same) refl,
          )
    ]
  ]

  -- The bundle that mergeCABundle returns, and that Riak reads as its trusted CAs, parses: into as
  -- many certificates as were counted, no two of them the same, and exactly those of the inputs.
  pub merge_ca_bundle-parse_pem_certs :
      (inputs : List String) (bundle : String) (count : ℕ)
      → merge_ca_bundle x inputs ≡ ok (bundle, count)
      → (cs ks : List Certificate) × AllParsed x inputs cs
        × (parse_pem_certs x bundle ≡ ok ks)
        × NoRepeats (raws x ks)
        × ((r : String) → mem r (raws x ks) ≡ mem r (raws x cs))
        × (length (raws x ks) ≡ count)
  merge_ca_bundle-parse_pem_certs inputs bundle count e =
      let m = merge_ca_bundle-IsMerged x inputs bundle count e in
      let are_raw =
        subst (All IsRaw) (sym m.kept_first)
          (fresh-IsRaw [] m.certs (AllParsed-Reparses m.parsed)) in
      let (ks, p, same) = Parses-encode_all m.kept bundle are_raw m.encodes in
      (
        m.certs,
        ks,
        m.parsed,
        Parses-parse_pem_certs x p,
        subst NoRepeats (sym same) m.kept_once,
        (λ r. ap (mem r) same ∙ m.kept_all r),
        ap length same ∙ sym m.counted,
      )
