-- ===== src/Riak/Executor/Permissions.antt =====
-- internal/riak/executor.go: permissions, grant targets and the print-grants table.
pub mod Tokens
use openriak_operator.Prelude.{
  String, Bool, true, false, ◌&&◌, ◌||◌, not, List, [], ◌∷◌, ◌++◌, Option, none, some, Result, ok,
  err, eqb, ◌==◌, if◌then◌else◌, length,
}
use openriak_operator.Text.{append, has_prefix, split_on, fields, trim_space, trim_char, mem}

unfoldable pub riak_kv_permissions : String → String
riak_kv_permissions permission =
    if permission == "read"
    then "riak_kv.get"
    else if permission == "write"
    then "riak_kv.put"
    else if permission == "delete"
    then "riak_kv.delete"
    else if permission == "list"
    then "riak_kv.list_keys,riak_kv.list_buckets"
    else if permission == "admin"
    then "riak_kv.get,riak_kv.put,riak_kv.delete,riak_kv.list_keys,riak_kv.list_buckets"
    else permission

-- The inner loop: `tokens` is the result so far, whose elements are the keys of `seen`.
unfoldable pub add_tokens : List String → List String → List String
add_tokens tokens [] = tokens
add_tokens tokens (t ∷ ts) = add_tokens (if mem t tokens then tokens else tokens ++ t ∷ []) ts

unfoldable pub tokens_from : List String → List String → List String
unfolding add_tokens
tokens_from tokens [] = tokens
tokens_from tokens (p ∷ ps) =
    tokens_from (add_tokens tokens (split_on "," (riak_kv_permissions p))) ps

unfoldable pub permission_tokens : List String → List String
unfolding tokens_from
permission_tokens permissions = tokens_from [] permissions

-- %q: the text in quotes. Escapes are left out: the text is a CRD enum or a plain name.
abbrev pub quoted : String → String
quoted s = append "\"" (append s "\"")

abbrev words_or_error : List String → Result (List String)
words_or_error [] = err "bucket grant requires a bucket target"
words_or_error (w ∷ ws) = ok (w ∷ ws)

unfoldable pub grant_target : String → String → Result (List String)
grant_target resource bucket =
    if resource == "any"
    then ok ("any" ∷ [])
    else if resource == "bucket"
    then words_or_error (fields bucket)
    else err (append "unknown grant resource " (quoted resource))

-- One row of a user's dedicated permissions.
pub record GrantEntry : Type 0 where
  pub grant_type : String
  pub bucket : String
  pub tokens : List String

abbrev pub trimmed_tokens : List String → List String
trimmed_tokens [] = []
trimmed_tokens (raw ∷ raws) =
    let t = trim_space raw in let rest = trimmed_tokens raws in if t == "" then rest else t ∷ rest

-- The last entry gets more tokens.
abbrev extend_last : List String → List GrantEntry → List GrantEntry
extend_last more [] = []
extend_last more (e ∷ []) = record e { tokens = e.tokens ++ more } ∷ []
extend_last more (e ∷ f ∷ es) = e ∷ extend_last more (f ∷ es)

abbrev is_empty_list {ℓ} : {A : Type ℓ} → List A → Bool
is_empty_list [] = true
is_empty_list (x ∷ xs) = false

-- One row of three columns: the header, a continuation of the last row, or a new row.
unfoldable pub add_row : List GrantEntry → List String → List GrantEntry
add_row entries (c0 ∷ c1 ∷ c2 ∷ []) =
    let typ = trim_space c0 in
    let tokens = trimmed_tokens (split_on "," c2) in
    if typ == "type"
    then entries
    else if typ == "" && not (is_empty_list entries)
    then extend_last tokens entries
    else entries ++ record { grant_type = typ; bucket = trim_space c1; tokens = tokens } ∷ []
add_row entries _ = entries

-- The loop over the lines.
unfoldable pub grants_from : Bool → List GrantEntry → List String → List GrantEntry
unfolding add_row
grants_from in_section entries [] = entries
grants_from in_section entries (line ∷ lines) =
    let opened = grants_from true entries lines in
    let skipped = grants_from in_section entries lines in
    let added =
      grants_from in_section (add_row entries (split_on "|" (trim_char "|" line))) lines in
    if has_prefix line "Dedicated permissions"
    then opened
    else if has_prefix line "Cumulative permissions"
    then entries
    else if not in_section || not (has_prefix line "|")
    then skipped
    else added

unfoldable pub parse_dedicated_grants : String → List GrantEntry
unfolding grants_from
parse_dedicated_grants output = grants_from false [] (split_on "\n" output)
