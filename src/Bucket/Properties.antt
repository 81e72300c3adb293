-- ===== src/Bucket/Properties.antt =====
-- effectiveBucketProperties of internal/controller/riakbucket_controller.go. A map[string]string is
-- an association list, and setting a key replaces its entry.
use openriak_operator.Prelude.{
  ℕ, suc, ◌^◌, ◌<◌, String, List, [], ◌∷◌, Option, some, ◌≡◌, ◌≢◌, arith, Bool-cases, inl, inr, eqb,
  ltb, ◌==◌, eq_iff, if◌then◌else◌, ◌&&◌,
}
use openriak_operator.Text.{itoa, parse_int, ℤ, pos}
use openriak_operator.Text.Numbers.Decimals.{parse_int-itoa}
use openriak_operator.Resources.{BucketSpec}

-- m[key], "" where the key is missing.
abbrev pub get_elem : List (String × String) → String → String
get_elem [] key = ""
get_elem ((k, v) ∷ m) key = if k == key then v else get_elem m key

-- m[key] = value
abbrev pub set_elem : List (String × String) → String → String → List (String × String)
set_elem [] key value = (key, value) ∷ []
set_elem ((k, v) ∷ m) key value =
    let rest = set_elem m key value in if k == key then (key, value) ∷ m else (k, v) ∷ rest

-- An n_val that is parsed is taken if it is positive.
abbrev pub positive_or : ℕ → Option ℤ → ℕ
positive_or d (some (pos (suc n))) = suc n
positive_or d _ = d

abbrev pub typed_n_val : BucketSpec → ℕ
typed_n_val spec = if eqb spec.n_val 0 then spec.replication_factor else spec.n_val

-- The properties and the n_val in them, the latter 0 when Riak's default applies.
unfoldable pub effective_bucket_properties : BucketSpec → List (String × String) × ℕ
effective_bucket_properties spec =
    let typed = typed_n_val spec in
    let with_n_val =
      if ltb 0 typed then set_elem spec.properties "n_val" (itoa typed) else spec.properties in
    let n_val =
      if ltb 0 typed
      then typed
      else positive_or typed (parse_int 32 (get_elem with_n_val "n_val")) in
    (if spec.allow_multi then set_elem with_n_val "allow_mult" "true" else with_n_val, n_val)

get-set_self :
    (m : List (String × String)) (key value : String) → get_elem (set_elem m key value) key ≡ value
get-set_self [] key value = ground (arith, eq_iff key key)
get-set_self ((k, v) ∷ m) key value = ground (arith, eq_iff key key, get-set_self m key value)

get-set_ne :
    (m : List (String × String)) (key value other : String)
    → key ≢ other
    → get_elem (set_elem m key value) other ≡ get_elem m other
get-set_ne [] key value other ne = ground (arith, ne, eq_iff key other)
get-set_ne ((k, v) ∷ m) key value other ne =
    ground (arith, ne, eq_iff key other, eq_iff k key, get-set_ne m key value other ne)

get-set :
    (m : List (String × String)) (key value other : String)
    → get_elem (set_elem m key value) other ≡ (if key == other then value else get_elem m other)
get-set m key value other = elim (Bool-cases (key == other)) [
  | inl same ↦ ground (arith, same, eq_iff key other, get-set_self m key value)
  | inr ne ↦ ground (
    arith,
    ne,
    eq_iff key other,
    get-set_ne m key value other (λ e. ground (arith, ne, e, eq_iff key other)),
  )
]

-- What the map of properties holds, and what is reported of it.
pub record Effective (spec : BucketSpec) (properties : List (String × String)) (n_val : ℕ)
    : Type 0 where
  pub held :
      (key : String)
      → get_elem properties key ≡ (
          if "allow_mult" == key && spec.allow_multi
          then "true"
          else if "n_val" == key && ltb 0 (typed_n_val spec)
          then itoa (typed_n_val spec)
          else get_elem spec.properties key)
  pub reported : n_val ≡ positive_or 0 (parse_int 32 (get_elem properties "n_val"))

typed_bound :
    (spec : BucketSpec)
    → spec.n_val < 2 ^ 31
    → spec.replication_factor < 2 ^ 31
    → typed_n_val spec < 2 ^ 31
typed_bound spec hn hr = ground (arith, hn, hr)

-- For an n_val and a replication factor of 32 bits: the map that is sent to Riak holds "true" at
-- allow_mult if multiple values are allowed, the typed n_val (else the replication factor) in
-- base 10 at n_val if one is given, and at every other key what spec.properties holds there; and
-- the n_val that is reported is the one read back from that map, 0 where the map has no positive one of 32 bits.
pub effective_bucket_properties_lem :
    (spec : BucketSpec)
    → spec.n_val < 2 ^ 31
    → spec.replication_factor < 2 ^ 31
    → let (properties, n_val) = effective_bucket_properties spec in Effective spec properties n_val
unfolding effective_bucket_properties
effective_bucket_properties_lem spec hn hr =
    let base = spec.properties in
    let text = itoa (typed_n_val spec) in
    let typed = if ltb 0 (typed_n_val spec) then set_elem base "n_val" text else base in
    record {
      held = λ key.
          ground (arith, get-set base "n_val" text key, get-set typed "allow_mult" "true" key);
      reported = ground (
        arith,
        get-set base "n_val" text "n_val",
        get-set typed "allow_mult" "true" "n_val",
        parse_int-itoa 32 (typed_n_val spec) (typed_bound spec hn hr),
      );
    }
