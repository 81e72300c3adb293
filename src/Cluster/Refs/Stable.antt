-- ===== src/Cluster/Refs/Stable.antt =====
-- The references do not depend on the order in which the API server lists the objects.
use mathlib.Core.List.{Permᴰ}
use openriak_operator.Prelude.{Bool, List, String, ◌≡◌, ap, sym, ◌∙◌, map, keep_if}
use openriak_operator.Resources.{RiakBucket, RiakUser}
use openriak_operator.Sorting.{sort_by}
use openriak_operator.Sorting.Stable.{DistinctKeys, sort_by_reordered}
use openriak_operator.Sorting.Kept.{keep_if-Pairwise, keep_if-Permᴰ, sort_by-map}
use openriak_operator.Cluster.Refs.{
  bucket_refs_of, user_refs_of, bucket_ref, bucket_ref_name, targets_cluster, user_ref,
  user_ref_name, user_targets_cluster,
}

abbrev pub bucket_name : RiakBucket → String
bucket_name b = b.name

abbrev pub user_name : RiakUser → String
user_name u = u.name

selected_reordered {ℓ κ} :
    {A : Type ℓ} {B : Type κ} (p : A → Bool) (f : A → B) (key : B → String) {xs ys : List A}
    → DistinctKeys (λ a. key (f a)) xs
    → Permᴰ xs ys
    → sort_by key (map f (keep_if p xs)) ≡ sort_by key (map f (keep_if p ys))
selected_reordered p f key {xs} {ys} distinct reordered =
    sort_by-map f key (keep_if p xs)
    ∙ ap (map f) (
        sort_by_reordered (λ a. key (f a)) (keep_if-Permᴰ p reordered)
          (keep_if-Pairwise p xs distinct))
    ∙ sym (sort_by-map f key (keep_if p ys))

-- Buckets of different names, listed in whatever order, give the same references; and so do users.
pub refs_reordered :
    (cluster : String) {bs cs : List RiakBucket} {us vs : List RiakUser}
    → DistinctKeys bucket_name bs
    → Permᴰ bs cs
    → DistinctKeys user_name us
    → Permᴰ us vs
    → (bucket_refs_of cluster bs ≡ bucket_refs_of cluster cs)
      × (user_refs_of cluster us ≡ user_refs_of cluster vs)
unfolding bucket_refs_of user_refs_of
refs_reordered cluster distinct_bs bs distinct_us us = (
  selected_reordered (targets_cluster cluster) bucket_ref bucket_ref_name distinct_bs bs,
  selected_reordered (user_targets_cluster cluster) user_ref user_ref_name distinct_us us,
)
