-- ===== src/Riak/Executor/Permissions/Tokens.antt =====
-- The tokens of a list of permissions.
use openriak_operator.Prelude.{
  String, Bool, true, false, ◌||◌, List, [], ◌∷◌, ◌++◌, ◌≡◌, refl, arith, ◌∙◌, sym, ◌==◌, eq_iff,
  any_of, Bool-cases, inl, inr,
}
use openriak_operator.Text.{mem, split_on}
use openriak_operator.Riak.Executor.Permissions.{
  riak_kv_permissions, add_tokens, tokens_from, permission_tokens,
}

pub any_of-append {ℓ} :
    {A : Type ℓ} (p : A → Bool) (xs ys : List A)
    → any_of p (xs ++ ys) ≡ (any_of p xs || any_of p ys)
any_of-append p [] ys = refl
any_of-append p (x ∷ xs) ys = ground (arith, any_of-append p xs ys)

pub mem-append : (t : String) (xs ys : List String) → mem t (xs ++ ys) ≡ (mem t xs || mem t ys)
unfolding mem
mem-append t xs ys = any_of-append (λ s. s == t) xs ys

or_false : (b : Bool) → b ≡ (b || false)
or_false true = refl
or_false false = refl

mem-snoc : (t s : String) (xs : List String) → mem t (xs ++ s ∷ []) ≡ (mem t xs || s == t)
unfolding mem
mem-snoc t s xs = any_of-append (λ u. u == t) xs (s ∷ []) ∙ ground arith

-- Adding what is there already changes nothing.
mem-known :
    (t s : String) (tokens ts : List String)
    → mem s tokens ≡ true
    → (mem t tokens || mem t (s ∷ ts)) ≡ (mem t tokens || mem t ts)
unfolding mem
mem-known t s tokens ts known = elim (Bool-cases (s == t)) [
  | inl e ↦
      let same : mem t tokens ≡ true = rw (← (eq_iff s t).0 e) known in ground (arith, same, e)
  | inr e ↦ ground (arith, e)
]

mem-add_tokens :
    (t : String) (tokens ts : List String)
    → mem t (add_tokens tokens ts) ≡ (mem t tokens || mem t ts)
unfolding add_tokens mem
mem-add_tokens t tokens [] = or_false (mem t tokens)
mem-add_tokens t tokens (s ∷ ts) = elim (Bool-cases (mem s tokens)) [
  | inl known ↦ rw known (mem-add_tokens t tokens ts ∙ sym (mem-known t s tokens ts known))
  | inr new ↦ rw new (ground (arith, mem-add_tokens t (tokens ++ s ∷ []) ts, mem-snoc t s tokens))
]

-- A permission stands for a token.
unfoldable pub stands_for : String → String → Bool
stands_for permission token = mem token (split_on "," (riak_kv_permissions permission))

mem-tokens_from :
    (t : String) (tokens ps : List String)
    → mem t (tokens_from tokens ps) ≡ (mem t tokens || any_of (λ p. stands_for p t) ps)
unfolding tokens_from stands_for
mem-tokens_from t tokens [] = or_false (mem t tokens)
mem-tokens_from t tokens (p ∷ ps) = ground (
  arith,
  mem-tokens_from t (add_tokens tokens (split_on "," (riak_kv_permissions p))) ps,
  mem-add_tokens t tokens (split_on "," (riak_kv_permissions p)),
)

-- No token stands twice.
abbrev pub Distinct : List String → Type 0
Distinct [] = Unit {0}
Distinct (t ∷ ts) = (mem t ts ≡ false) × Distinct ts

Distinct-snoc :
    (s : String) (ts : List String) → Distinct ts → mem s ts ≡ false → Distinct (ts ++ s ∷ [])
unfolding mem
Distinct-snoc s [] d new = (refl, tt)
Distinct-snoc s (t ∷ ts) d new = (
  ground (arith, mem-snoc t s ts, eq_iff s t, eq_iff t s, new, d.0),
  Distinct-snoc s ts d.1 (ground (arith, new)),
)

add_tokens-Distinct : (tokens ts : List String) → Distinct tokens → Distinct (add_tokens tokens ts)
unfolding add_tokens
add_tokens-Distinct tokens [] d = d
add_tokens-Distinct tokens (t ∷ ts) d = elim (Bool-cases (mem t tokens)) [
  | inl known ↦ rw known (add_tokens-Distinct tokens ts d)
  | inr new ↦ rw new (add_tokens-Distinct (tokens ++ t ∷ []) ts (Distinct-snoc t tokens d new))
]

tokens_from-Distinct :
    (tokens ps : List String) → Distinct tokens → Distinct (tokens_from tokens ps)
unfolding tokens_from
tokens_from-Distinct tokens [] d = d
tokens_from-Distinct tokens (p ∷ ps) d =
    tokens_from-Distinct (add_tokens tokens (split_on "," (riak_kv_permissions p))) ps
      (add_tokens-Distinct tokens (split_on "," (riak_kv_permissions p)) d)

-- The tokens of a list of permissions hold no token twice, and hold exactly the tokens that one of
-- the permissions stands for.
pub permission_tokens_lem :
    (ps : List String) (t : String)
    → Distinct (permission_tokens ps)
      × (mem t (permission_tokens ps) ≡ any_of (λ p. stands_for p t) ps)
unfolding permission_tokens mem
permission_tokens_lem ps t = (tokens_from-Distinct [] ps tt, mem-tokens_from t [] ps)
