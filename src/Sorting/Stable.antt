-- ===== src/Sorting/Stable.antt =====
-- Sorting by a name does not depend on the order of what is sorted, where the names differ.
use mathlib.Core.Path.{ap₂}
use mathlib.Core.List.{Pairwise, Permᴰ, mem-cons_self}
use mathlib.Core.List.Permᴰ
use openriak_operator.Prelude.{
  String, true, false, List, [], ◌∷◌, ◌≡◌, ◌≢◌, refl, sym, ◌∙◌, arith, Bool-cases, inl, inr,
}
use openriak_operator.Text.Order.{text_lt, text_lt_asymm, text_lt_trans, text_lt_total}
use openriak_operator.Sorting.{insert_by, sort_by}

module _ {ℓ} {A : Type ℓ} (key : A → String) where
  -- No two have one name.
  abbrev pub DistinctKeys : List A → Type ℓ
  DistinctKeys xs = Pairwise (λ a b. key a ≢ key b) xs

  insert_by_below :
      (a b : A) (xs : List A)
      → text_lt (key a) (key b) ≡ true
      → insert_by key a (insert_by key b xs) ≡ insert_by key b (insert_by key a xs)
  unfolding insert_by
  insert_by_below a b [] lt = ground (arith, lt, text_lt_asymm (key a) (key b))
  insert_by_below a b (x ∷ xs) lt = ground (
    arith,
    lt,
    text_lt_asymm (key a) (key b),
    text_lt_trans (key x) (key a) (key b),
    insert_by_below a b xs lt,
  )

  insert_by_swap :
      (a b : A) (xs : List A)
      → key a ≢ key b
      → insert_by key a (insert_by key b xs) ≡ insert_by key b (insert_by key a xs)
  insert_by_swap a b xs ne = elim (Bool-cases (text_lt (key a) (key b))) [
    | inl lt ↦ insert_by_below a b xs lt
    | inr not_lt ↦ elim (Bool-cases (text_lt (key b) (key a))) [
      | inl gt ↦ sym (insert_by_below b a xs gt)
      | inr not_gt ↦ absurd (ne (text_lt_total (key a) (key b) not_lt not_gt))
    ]
  ]

  differ-prop : (a b : A) → IsProp (key a ≢ key b)
  differ-prop a b = hlevel

  -- Sorting forgets the order of the input.
  pub sort_by_reordered :
      {xs ys : List A} → Permᴰ xs ys → DistinctKeys xs → sort_by key xs ≡ sort_by key ys
  unfolding sort_by
  sort_by_reordered Permᴰ.nil distinct = refl
  sort_by_reordered (Permᴰ.cons e d) (Pairwise.cons below rest) =
      ap₂ (insert_by key) e (sort_by_reordered d rest)
  sort_by_reordered (Permᴰ.swap {a} {b} {a'} {b'} {l} e f) (Pairwise.cons below rest) =
      insert_by_swap a b (sort_by key l) (below b mem-cons_self)
      ∙ ap₂ (λ x y. insert_by key y (insert_by key x (sort_by key l))) e f
  sort_by_reordered (Permᴰ.trans d f) distinct =
      sort_by_reordered d distinct
      ∙ sort_by_reordered f (Permᴰ.pairwise differ-prop (λ x y ne same. ne (sym same)) d distinct)

  insert_by-Permᴰ : (x : A) (xs : List A) → Permᴰ (insert_by key x xs) (x ∷ xs)
  unfolding insert_by
  insert_by-Permᴰ x [] = Permᴰ.refl (x ∷ [])
  insert_by-Permᴰ x (y ∷ ys) = elim (Bool-cases (text_lt (key y) (key x))) [
    | inl lt ↦ rw lt (Permᴰ.trans (Permᴰ.cons refl (insert_by-Permᴰ x ys)) (Permᴰ.swap refl refl))
    | inr ge ↦ rw ge (Permᴰ.refl (x ∷ y ∷ ys))
  ]

  -- Sorting keeps what is sorted, and puts it in ascending order.
  pub sort_by-Permᴰ : (xs : List A) → Permᴰ (sort_by key xs) xs
  unfolding sort_by
  sort_by-Permᴰ [] = Permᴰ.nil
  sort_by-Permᴰ (x ∷ xs) =
      Permᴰ.trans (insert_by-Permᴰ x (sort_by key xs)) (Permᴰ.cons refl (sort_by-Permᴰ xs))

  -- No name is less than the one in front of it.
  abbrev pub Ascending : List A → Type 0
  Ascending [] = Unit
  Ascending (x ∷ []) = Unit
  Ascending (x ∷ y ∷ ys) = (text_lt (key y) (key x) ≡ false) × Ascending (y ∷ ys)

  insert_by-Ascending : (x : A) (xs : List A) → Ascending xs → Ascending (insert_by key x xs)
  unfolding insert_by
  insert_by-Ascending x [] s = tt
  insert_by-Ascending x (y ∷ []) s = ground (arith, text_lt_asymm (key y) (key x))
  insert_by-Ascending x (y ∷ z ∷ zs) s =
      ground (arith, s, text_lt_asymm (key y) (key x), insert_by-Ascending x (z ∷ zs) s.1)

  pub sort_by-Ascending : (xs : List A) → Ascending (sort_by key xs)
  unfolding sort_by
  sort_by-Ascending [] = tt
  sort_by-Ascending (x ∷ xs) = insert_by-Ascending x (sort_by key xs) (sort_by-Ascending xs)
