-- ===== src/Sorting/Kept.antt =====
-- Sorting what is kept of a list: it does not depend on the order of the list either.
use mathlib.Core.List.{
  Mem, Mem-prop, Pairwise, Permᴰ, mem-cons_self, mem-cons_of_mem, eq-or-mem_of_mem-cons,
}
use mathlib.Core.List.Permᴰ
use mathlib.Core.Logic.Or
use openriak_operator.Prelude.{
  String, Bool, List, [], ◌∷◌, map, keep_if, if◌then◌else◌, ◌≡◌, refl, sym, ap, ◌∙◌, subst,
  Bool-cases, inl, inr, arith,
}
use openriak_operator.Sorting.{insert_by, sort_by}

module _ {ℓ} {A : Type ℓ} (p : A → Bool) where
  mem-keep_if : {a : A} (xs : List A) → Mem a (keep_if p xs) → Mem a xs
  mem-keep_if [] m = m
  mem-keep_if {a} (x ∷ xs) m = elim (Bool-cases (p x)) [
    | inl kept ↦
        Or.elim Mem-prop
          (eq-or-mem_of_mem-cons
            (subst (λ b. Mem a (if b then x ∷ keep_if p xs else keep_if p xs)) kept m))
          (λ e. subst (λ y. Mem y (x ∷ xs)) (sym e) mem-cons_self)
          (λ later. mem-cons_of_mem x (mem-keep_if xs later))
    | inr dropped ↦ mem-cons_of_mem x (
        mem-keep_if xs
          (subst (λ b. Mem a (if b then x ∷ keep_if p xs else keep_if p xs)) dropped m))
  ]

  pub keep_if-Pairwise :
      {R : A → A → Type 0} (xs : List A) → Pairwise R xs → Pairwise R (keep_if p xs)
  keep_if-Pairwise [] Pairwise.nil = Pairwise.nil
  keep_if-Pairwise (x ∷ xs) (Pairwise.cons below rest) = elim (Bool-cases (p x)) [
    | inl kept ↦
        rw kept (Pairwise.cons (λ y m. below y (mem-keep_if xs m)) (keep_if-Pairwise xs rest))
    | inr dropped ↦ rw dropped (keep_if-Pairwise xs rest)
  ]

  pub keep_if-Permᴰ : {xs ys : List A} → Permᴰ xs ys → Permᴰ (keep_if p xs) (keep_if p ys)
  keep_if-Permᴰ Permᴰ.nil = Permᴰ.nil
  keep_if-Permᴰ (Permᴰ.cons {a} {b} {l₁} {l₂} e d) = elim (Bool-cases (p a)) [
    | inl kept ↦ rw (kept, sym (ap p e) ∙ kept) (Permᴰ.cons e (keep_if-Permᴰ d))
    | inr dropped ↦ rw (dropped, sym (ap p e) ∙ dropped) (keep_if-Permᴰ d)
  ]
  keep_if-Permᴰ (Permᴰ.swap {a} {b} {a'} {b'} {l} e f) = elim (Bool-cases (p a)) [
    | inl kept ↦ elim (Bool-cases (p b)) [
      | inl too ↦ rw (kept, too, sym (ap p e) ∙ kept, sym (ap p f) ∙ too) (Permᴰ.swap e f)
      | inr not_too ↦
          rw (kept, not_too, sym (ap p e) ∙ kept, sym (ap p f) ∙ not_too)
            (Permᴰ.cons e (Permᴰ.refl (keep_if p l)))
    ]
    | inr dropped ↦ elim (Bool-cases (p b)) [
      | inl too ↦
          rw (dropped, too, sym (ap p e) ∙ dropped, sym (ap p f) ∙ too)
            (Permᴰ.cons f (Permᴰ.refl (keep_if p l)))
      | inr not_too ↦
          rw (dropped, not_too, sym (ap p e) ∙ dropped, sym (ap p f) ∙ not_too)
            (Permᴰ.refl (keep_if p l))
    ]
  ]
  keep_if-Permᴰ (Permᴰ.trans d f) = Permᴰ.trans (keep_if-Permᴰ d) (keep_if-Permᴰ f)

module _ {ℓ κ} {A : Type ℓ} {B : Type κ} (f : A → B) (key : B → String) where
  insert_by-map :
      (x : A) (xs : List A)
      → insert_by key (f x) (map f xs) ≡ map f (insert_by (λ a. key (f a)) x xs)
  unfolding insert_by
  insert_by-map x [] = refl
  insert_by-map x (y ∷ ys) = ground (arith, insert_by-map x ys)

  pub sort_by-map : (xs : List A) → sort_by key (map f xs) ≡ map f (sort_by (λ a. key (f a)) xs)
  unfolding sort_by
  sort_by-map [] = refl
  sort_by-map (x ∷ xs) =
      ap (insert_by key (f x)) (sort_by-map xs) ∙ insert_by-map x (sort_by (λ a. key (f a)) xs)
