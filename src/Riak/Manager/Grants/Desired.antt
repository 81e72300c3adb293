-- ===== src/Riak/Manager/Grants/Desired.antt =====
-- Batching the grants by target keeps their meaning.
use openriak_operator.Prelude.{
  String, Bool, false, ◌||◌, ◌&&◌, not, List, [], ◌∷◌, Result, ok, err, ◌≡◌, refl, arith, ◌∙◌, ap,
  ◌==◌, eq_iff, any_of, Bool-cases, Result-cases, inl, inr, keep_if,
}
use openriak_operator.Text.{mem, append}
use openriak_operator.Resources.{Grant}
use openriak_operator.World.{Api, History}
use openriak_operator.Riak.Executor.{permission_tokens, GrantEntry}
use openriak_operator.Riak.Executor.Permissions.Tokens.{
  any_of-append, stands_for, permission_tokens_lem,
}
use openriak_operator.Riak.Manager.Grants.{
  grant_permissions, grant_key, Wanted, add_wanted, by_target, Desired, is_desired, apply_wanted,
  stale_tokens,
}

abbrev is_key : Result String → String → Bool
is_key (err e) key = false
is_key (ok k) key = k == key

-- One grant of the spec asks for a token on a target.
unfoldable pub asks_for : String → String → Grant → Bool
asks_for key token g =
    is_key (grant_key g.resource g.bucket_name) key && stands_for g.permission token

-- So does one batch.
batch_asks : String → String → Wanted → Bool
batch_asks key token w =
    is_key (grant_key w.resource w.bucket) key && any_of (λ p. stands_for p token) w.permissions

any_of-add_wanted :
    (key token : String) (g : Grant) (ws : List Wanted)
    → any_of (batch_asks key token) (add_wanted g ws)
      ≡ (asks_for key token g || any_of (batch_asks key token) ws)
unfolding add_wanted batch_asks asks_for
any_of-add_wanted key token g [] = ground arith
any_of-add_wanted key token g (w ∷ ws) =
    elim (Bool-cases (w.resource == g.resource && w.bucket == g.bucket_name)) [
      | inl e ↦
          let same : grant_key w.resource w.bucket ≡ grant_key g.resource g.bucket_name =
            ground (arith, e, eq_iff w.resource g.resource, eq_iff w.bucket g.bucket_name) in
          rw (e, add_wanted)
            (ground (
              arith,
              same,
              any_of-append (λ p. stands_for p token) w.permissions (g.permission ∷ []),
            ))
      | inr e ↦ rw (e, add_wanted) (ground (arith, any_of-add_wanted key token g ws))
    ]

any_of-by_target :
    (key token : String) (ws : List Wanted) (gs : List Grant)
    → any_of (batch_asks key token) (by_target ws gs)
      ≡ (any_of (batch_asks key token) ws || any_of (asks_for key token) gs)
unfolding by_target
any_of-by_target key token ws [] = ground arith
any_of-by_target key token ws (g ∷ gs) =
    ground
      (arith, any_of-by_target key token (add_wanted g ws) gs, any_of-add_wanted key token g ws)

-- What one batch asks for is what its call grants.
is_desired-batch :
    (key token k : String) (w : Wanted) (desired : Desired)
    → grant_key w.resource w.bucket ≡ ok k
    → is_desired ((k, permission_tokens w.permissions) ∷ desired) key token
      ≡ (batch_asks key token w || is_desired desired key token)
unfolding is_desired batch_asks
is_desired-batch key token k w desired e =
    ground (arith, e, (permission_tokens_lem w.permissions token).1)

after_grant :
    (api : Api) (namespace pod username : String) (desired result : Desired) (w : Wanted)
    (ws : List Wanted) (h : History)
    → (apply_wanted api namespace pod username desired (w ∷ ws) h).0 ≡ ok result
    → (k : String) × (grant_key w.resource w.bucket ≡ ok k)
      × ((apply_wanted api namespace pod username
            ((k, permission_tokens w.permissions) ∷ desired)
            ws
            (grant_permissions api namespace pod "riak" username w.resource w.bucket w.permissions
              h).1).0
          ≡ ok result)
unfolding apply_wanted
after_grant api namespace pod username desired result w ws h e =
    elim (Result-cases (grant_key w.resource w.bucket)) [
      | inl (x, f) ↦ absurd (ground (arith, e, f))
      | inr (k, f) ↦ (k, f, ground (arith, e, f))
    ]

is_desired-apply_wanted :
    (api : Api) (namespace pod username key token : String) (desired result : Desired)
    (ws : List Wanted) (h : History)
    → (apply_wanted api namespace pod username desired ws h).0 ≡ ok result
    → is_desired result key token
      ≡ (any_of (batch_asks key token) ws || is_desired desired key token)
is_desired-apply_wanted api namespace pod username key token desired result [] h e =
    unfold apply_wanted in ground arith
is_desired-apply_wanted api namespace pod username key token desired result (w ∷ ws) h e =
    let (k, keyed, rest) = after_grant api namespace pod username desired result w ws h e in
    let ih =
      is_desired-apply_wanted api namespace pod username key token
        ((k, permission_tokens w.permissions) ∷ desired) result ws
        (grant_permissions api namespace pod "riak" username w.resource w.bucket w.permissions h).1
        rest in
    ground (arith, ih, is_desired-batch key token k w desired keyed)

mem-keep_if :
    (p : String → Bool) (t : String) (ts : List String) → mem t (keep_if p ts) ≡ (mem t ts && p t)
unfolding mem
mem-keep_if p t [] = refl
mem-keep_if p t (s ∷ ts) = elim (Bool-cases (s == t)) [
  | inl e ↦
      let same : p s ≡ p t = ap p ((eq_iff s t).0 e) in ground (arith, e, same, mem-keep_if p t ts)
  | inr e ↦ ground (arith, e, mem-keep_if p t ts)
]

-- Once every grant of the spec has been applied, batched by target, what is revoked from a row of
-- the permissions that Riak reports is exactly its tokens that no single grant of the spec asks for
-- on the row's target.
pub stale_tokens_lem :
    (api : Api) (namespace pod username token : String) (grants : List Grant) (desired : Desired)
    (entry : GrantEntry) (h : History)
    → (apply_wanted api namespace pod username [] (by_target [] grants) h).0 ≡ ok desired
    → mem token (stale_tokens desired entry) ≡ (
        mem token entry.tokens
        && not (any_of (asks_for (append entry.grant_type (append " " entry.bucket)) token) grants))
unfolding stale_tokens
stale_tokens_lem api namespace pod username token grants desired entry h e =
    let key = append entry.grant_type (append " " entry.bucket) in
    let applied =
      is_desired-apply_wanted api namespace pod username key token [] desired (by_target [] grants)
        h e in
    let batched = any_of-by_target key token [] grants in
    mem-keep_if (λ t. not (is_desired desired key t)) token entry.tokens
    ∙ ap (λ (b : Bool). mem token entry.tokens && not b)
        (unfold is_desired in ground (arith, applied, batched))
