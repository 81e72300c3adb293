-- ===== src/Sorting.antt =====
-- sort.Slice and sort.Strings as the controllers call them: by a name, ascending. Names are unique
-- among what is sorted there, so the result does not depend on the algorithm.
pub mod Stable
pub mod Kept
use openriak_operator.Prelude.{String, Bool, List, [], ◌∷◌, if◌then◌else◌}
use openriak_operator.Text.Order.{text_lt}

module _ {ℓ} {A : Type ℓ} (key : A → String) where
  unfoldable pub insert_by : A → List A → List A
  unfolding text_lt
  insert_by x [] = x ∷ []
  insert_by x (y ∷ ys) =
      let rest = insert_by x ys in if text_lt (key y) (key x) then y ∷ rest else x ∷ y ∷ ys

  unfoldable pub sort_by : List A → List A
  unfolding insert_by
  sort_by [] = []
  sort_by (x ∷ xs) = insert_by x (sort_by xs)
