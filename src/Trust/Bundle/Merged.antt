-- ===== src/Trust/Bundle/Merged.antt =====
-- What mergeCABundle returns: the first occurrences of the certificates, encoded one after another.
pub mod Reparsed
use text.Mathlib.TextLemmas.{nil-append, append-nil, append_assoc}
use openriak_operator.Prelude.{
  ℕ, suc, ◌+◌, String, Bool, true, false, not, ◌&&◌, List, [], ◌∷◌, ◌++◌, Option, Result, ok, err,
  ◌≡◌, refl, sym, ap, ◌∙◌, subst, arith, ◌==◌, if◌then◌else◌, length, map, Bool-cases, Result-cases,
  inl, inr, eq_iff, eq_refl, any_of, All,
}
use openriak_operator.Text.{append, mem, NoRepeats}
use openriak_operator.Trust.Pem.{X509, Certificate, parse_pem_certs, encode_all}
use openriak_operator.Trust.Bundle.{
  Merge, empty_merge, and_then, add_cert, add_certs, merge_inputs, merge_ca_bundle, encoded,
}

-- The texts that were not seen, each once, in order.
unfoldable pub fresh : List String → List String → List String
fresh seen [] = []
fresh seen (r ∷ rs) =
    let known = fresh seen rs in
    let added = r ∷ fresh (r ∷ seen) rs in if mem r seen then known else added

pub mem-fresh :
    (r : String) (seen rs : List String) → mem r (fresh seen rs) ≡ (not (mem r seen) && mem r rs)
unfolding fresh mem
mem-fresh r seen [] = ground arith
mem-fresh r seen (q ∷ rs) = elim (Bool-cases (q == r)) [
  | inl same ↦
      let at = ap (λ s. mem s seen) ((eq_iff q r).0 same) in
      ground (arith, same, at, mem-fresh r seen rs, mem-fresh r (q ∷ seen) rs)
  | inr other ↦ ground (arith, other, mem-fresh r seen rs, mem-fresh r (q ∷ seen) rs)
]

pub fresh-NoRepeats : (seen rs : List String) → NoRepeats (fresh seen rs)
unfolding fresh mem
fresh-NoRepeats seen [] = tt
fresh-NoRepeats seen (r ∷ rs) = ground (
  arith,
  eq_refl r,
  mem-fresh r (r ∷ seen) rs,
  fresh-NoRepeats seen rs,
  fresh-NoRepeats (r ∷ seen) rs,
)

pub ok_injective {ℓ} : {A : Type ℓ} {a b : A} → ok a ≡ ok b → a ≡ b
ok_injective e = ground (arith, e)

module _ (x : X509) where
  abbrev pub raws : List Certificate → List String
  raws [] = []
  raws (c ∷ cs) = c.raw ∷ raws cs

  -- What the certificates that were not seen add to the buffer and to the count.
  pub record Added (m : Merge) (cs : List Certificate) (n : Merge) : Type 0 where
    pub blocks : String
    pub encodes : encode_all x.encode_pem (fresh m.seen (raws cs)) ≡ ok blocks
    pub written : n.out ≡ append m.out blocks
    pub counted : n.count ≡ m.count + length (fresh m.seen (raws cs))

  add_certs-Added : (m n : Merge) (cs : List Certificate) → add_certs x m cs ≡ ok n → Added m cs n
  unfolding add_certs fresh encode_all
  add_certs-Added m n [] e = record {
    blocks = "";
    encodes = refl;
    written = ap (λ (k : Merge). k.out) (sym (ok_injective e)) ∙ sym (append-nil m.out);
    counted = ground (arith, e);
  }
  add_certs-Added m n (c ∷ cs) e = elim (Bool-cases (mem c.raw m.seen)) [
    | inl known ↦
        let rest = add_certs-Added m n cs (ground (arith, known, e)) in
        record {
          blocks = rest.blocks;
          encodes = rw known rest.encodes;
          written = rest.written;
          counted = rw known rest.counted;
        }
    | inr unseen ↦ elim (Result-cases (x.encode_pem c.raw)) [
      | inl (why, bad) ↦ absurd (ground (arith, unseen, bad, e))
      | inr (block, good) ↦
          let rest =
            add_certs-Added (encoded x m c.raw block) n cs (ground (arith, unseen, good, e)) in
          record {
            blocks = append block rest.blocks;
            encodes = ground (arith, unseen, good, rest.encodes);
            written = rest.written ∙ append_assoc m.out block rest.blocks;
            counted = ground (arith, unseen, rest.counted);
          }
    ]
  ]

  -- The inputs parse, and these are their certificates, in order.
  pub data AllParsed : List String → List Certificate → Type 0 where
    no_inputs : AllParsed [] []
    one_more :
        {input : String} {inputs : List String} {cs ds : List Certificate}
        → parse_pem_certs x input ≡ ok cs
        → AllParsed inputs ds
        → AllParsed (input ∷ inputs) (cs ++ ds)

  add_certs-append :
      (m : Merge) (cs ds : List Certificate)
      → add_certs x m (cs ++ ds) ≡ and_then (add_certs x m cs) (λ n. add_certs x n ds)
  unfolding add_certs
  add_certs-append m [] ds = refl
  add_certs-append m (c ∷ cs) ds = elim (Result-cases (add_cert x m c)) [
    | inl (e, bad) ↦ rw bad refl
    | inr (n, good) ↦ rw good (add_certs-append n cs ds)
  ]

  merge_inputs-add_certs :
      (m n : Merge) (inputs : List String)
      → merge_inputs x m inputs ≡ ok n
      → (cs : List Certificate) × AllParsed inputs cs × (add_certs x m cs ≡ ok n)
  unfolding merge_inputs
  merge_inputs-add_certs m n [] e = ([], no_inputs, e)
  merge_inputs-add_certs m n (input ∷ inputs) e = elim (Result-cases (parse_pem_certs x input)) [
    | inl (why, bad) ↦ absurd (ground (arith, bad, e))
    | inr (cs, good) ↦ elim (Result-cases (add_certs x m cs)) [
      | inl (why, bad) ↦ absurd (ground (arith, good, bad, e))
      | inr (k, added) ↦
          let (ds, parsed, rest) =
            merge_inputs-add_certs k n inputs (ground (arith, good, added, e)) in
          (cs ++ ds, one_more good parsed, add_certs-append m cs ds ∙ rw added rest)
    ]
  ]

  -- `bundle` encodes `kept` one after another; these are the raw certificates of the inputs, each
  -- once and where it comes first, and there are `count` of them.
  pub record IsMerged (inputs : List String) (bundle : String) (count : ℕ) : Type 0 where
    pub certs : List Certificate
    pub parsed : AllParsed inputs certs
    pub kept : List String
    pub kept_first : kept ≡ fresh [] (raws certs)
    pub kept_once : NoRepeats kept
    pub kept_all : (r : String) → mem r kept ≡ mem r (raws certs)
    pub encodes : encode_all x.encode_pem kept ≡ ok bundle
    pub counted : count ≡ length kept

  -- What mergeCABundle returns is the concatenation of the inputs' certificates, every one of them
  -- and none twice, with their number.
  pub merge_ca_bundle-IsMerged :
      (inputs : List String) (bundle : String) (count : ℕ)
      → merge_ca_bundle x inputs ≡ ok (bundle, count)
      → IsMerged inputs bundle count
  unfolding merge_ca_bundle mem
  merge_ca_bundle-IsMerged inputs bundle count e =
      elim (Result-cases (merge_inputs x empty_merge inputs)) [
        | inl (why, bad) ↦ absurd (ground (arith, bad, e))
        | inr (m, good) ↦
            let (cs, parsed, run) = merge_inputs-add_certs empty_merge m inputs good in
            let added = add_certs-Added empty_merge m cs run in
            let out : m.out ≡ bundle = ground (arith, good, e) in
            let number : m.count ≡ count = ground (arith, good, e) in
            let blocks : added.blocks ≡ bundle =
              sym (nil-append added.blocks) ∙ sym added.written ∙ out in
            record {
              certs = cs;
              parsed = parsed;
              kept = fresh [] (raws cs);
              kept_first = refl;
              kept_once = fresh-NoRepeats [] (raws cs);
              kept_all = λ r. mem-fresh r [] (raws cs);
              encodes = added.encodes ∙ ap ok blocks;
              counted = omega (arith, number, added.counted);
            }
      ]
