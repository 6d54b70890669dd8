-- ===== src/Base/Sorting.antt =====
-- Python's `sorted`, which is stable, by a Boolean order, and the members of what it returns.
use Prim.Native.Nat.{ℕ, ◌≤◌, ◌<◌}
use native.Mathlib.Omega.{arith}
use mathlib.Core.Path.{◌≡◌, refl, ap, subst}
use mathlib.Core.Logic.{◌⊎◌, inl, inr}
use mathlib.Core.Bool.{Bool, true, false}
use mathlib.Core.List.{List, [], ◌∷◌}
use pixelflow.Base.Tests.{if◌then◌else◌, Bool-cases}
use pixelflow.Base.Lists.{
  IsIn, here, there, not-IsIn-nil, IsIn-cons, All, All-IsIn, All-of_IsIn, All-weaken,
}

module _ {ℓ} {A : Type ℓ} (le : A → A → Bool) where
  unfoldable pub insert : A → List A → List A
  insert x [] = x ∷ []
  insert x (y ∷ ys) = let rest = insert x ys in if le x y then x ∷ y ∷ ys else y ∷ rest

  unfoldable pub sort : List A → List A
  unfolding insert
  sort [] = []
  sort (x ∷ xs) = insert x (sort xs)

  All-insert {κ} : (P : A → Type κ) (x : A) (xs : List A) → P x → All P xs → All P (insert x xs)
  unfolding insert
  All-insert P x [] p h = (p, tt)
  All-insert P x (y ∷ ys) p h = elim (Bool-cases (le x y)) [
    | inl t ↦ rw t (p, h)
    | inr t ↦ rw t (h.0, All-insert P x ys p h.1)
  ]

  pub All-sort {κ} : (P : A → Type κ) (xs : List A) → All P xs → All P (sort xs)
  unfolding sort
  All-sort P [] h = tt
  All-sort P (x ∷ xs) h = All-insert P x (sort xs) h.0 (All-sort P xs h.1)

  -- What stands in the sorted list stands in the list.
  pub IsIn-sort : (a : A) (xs : List A) → IsIn a (sort xs) → IsIn a xs
  IsIn-sort a xs m =
      All-IsIn (λ x. IsIn x xs) m
        (All-sort (λ x. IsIn x xs) xs (All-of_IsIn (λ x. IsIn x xs) xs (λ x n. n)))

  insert-IsIn : (a x : A) (xs : List A) → (a ≡ x) ⊎ IsIn a xs → IsIn a (insert x xs)
  unfolding insert
  insert-IsIn a x [] (inl e) = here e
  insert-IsIn a x [] (inr m) = absurd (not-IsIn-nil refl m)
  insert-IsIn a x (y ∷ ys) h = elim (Bool-cases (le x y)) [
    | inl t ↦ rw t (elim h [ inl e ↦ here e | inr m ↦ there m ])
    | inr t ↦ rw t (elim h [
      | inl e ↦ there (insert-IsIn a x ys (inl e))
      | inr m ↦ elim (IsIn-cons refl m) [
        | inl e ↦ here e
        | inr n ↦ there (insert-IsIn a x ys (inr n))
      ]
    ])
  ]

  -- What stands in the list stands in the sorted one.
  pub sort-IsIn : (a : A) (xs : List A) → IsIn a xs → IsIn a (sort xs)
  unfolding sort
  sort-IsIn a [] m = m
  sort-IsIn a (x ∷ xs) m = elim (IsIn-cons refl m) [
    | inl e ↦ insert-IsIn a x (sort xs) (inl e)
    | inr n ↦ insert-IsIn a x (sort xs) (inr (sort-IsIn a xs n))
  ]

  module _ (total : (a b : A) → le a b ≡ false → le b a ≡ true)
      (trans : (a b c : A) → le a b ≡ true → le b c ≡ true → le a c ≡ true) where
    -- The order of what is sorted: each element comes before all that follow it.
    abbrev pub IsSorted : List A → Type 0
    IsSorted [] = Unit
    IsSorted (x ∷ xs) = All (λ y. le x y ≡ true) xs × IsSorted xs

    insert-IsSorted : (x : A) (xs : List A) → IsSorted xs → IsSorted (insert x xs)
    unfolding insert
    insert-IsSorted x [] h = (tt, tt)
    insert-IsSorted x (y ∷ ys) h = elim (Bool-cases (le x y)) [
      | inl t ↦ rw t ((t, All-weaken _ _ (λ z p. trans x y z t p) ys h.0), h)
      | inr t ↦
          rw t (All-insert (λ z. le y z ≡ true) x ys (total x y t) h.0, insert-IsSorted x ys h.1)
    ]

    pub sort-IsSorted : (xs : List A) → IsSorted (sort xs)
    unfolding sort
    sort-IsSorted [] = tt
    sort-IsSorted (x ∷ xs) = insert-IsSorted x (sort xs) (sort-IsSorted xs)

  -- Where the order agrees with a number of the elements, the sorted list ascends by that number.
  module _ (f : A → ℕ) (low : (a b : A) → le a b ≡ true → f a ≤ f b)
      (high : (a b : A) → le a b ≡ false → f b ≤ f a) where
    abbrev pub IsAscending : List A → Type 0
    IsAscending [] = Unit
    IsAscending (x ∷ xs) = All (λ y. f x ≤ f y) xs × IsAscending xs

    insert-IsAscending : (x : A) (xs : List A) → IsAscending xs → IsAscending (insert x xs)
    unfolding insert
    insert-IsAscending x [] h = (tt, tt)
    insert-IsAscending x (y ∷ ys) h = elim (Bool-cases (le x y)) [
      | inl t ↦
          let least = low x y t in
          rw t ((least, All-weaken _ _ (λ z p. omega (arith, least, p)) ys h.0), h)
      | inr t ↦
          rw t (All-insert (λ z. f y ≤ f z) x ys (high x y t) h.0, insert-IsAscending x ys h.1)
    ]

    pub sort-IsAscending : (xs : List A) → IsAscending (sort xs)
    unfolding sort
    sort-IsAscending [] = tt
    sort-IsAscending (x ∷ xs) = insert-IsAscending x (sort xs) (sort-IsAscending xs)

    pub sort-first : (x e : A) (xs es : List A) → sort xs ≡ e ∷ es → IsIn x xs → f e ≤ f x
    sort-first x e xs es h m = elim (IsIn-cons h (sort-IsIn x xs m)) [
      | inl p ↦ omega (arith, ap f p)
      | inr n ↦ All-IsIn (λ y. f e ≤ f y) n (subst IsAscending h (sort-IsAscending xs)).0
    ]

    -- Where no two elements have the same number, the sorted list ascends strictly.
    abbrev pub IsApart : List A → Type 0
    IsApart [] = Unit
    IsApart (x ∷ xs) = All (λ y. f x ≡ f y → ⊥) xs × IsApart xs

    abbrev pub IsStrict : List A → Type 0
    IsStrict [] = Unit
    IsStrict (x ∷ xs) = All (λ y. f x < f y) xs × IsStrict xs

    insert-IsStrict :
        (x : A) (xs : List A) → All (λ y. f x ≡ f y → ⊥) xs → IsStrict xs → IsStrict (insert x xs)
    unfolding insert
    insert-IsStrict x [] n h = (tt, tt)
    insert-IsStrict x (y ∷ ys) n h = elim (Bool-cases (le x y)) [
      | inl t ↦
          let less : f x < f y = omega (arith, low x y t, n.0) in
          rw t ((less, All-weaken _ _ (λ z p. omega (arith, less, p)) ys h.0), h)
      | inr t ↦
          let less : f y < f x = omega (arith, high x y t, n.0) in
          rw t (All-insert (λ z. f y < f z) x ys less h.0, insert-IsStrict x ys n.1 h.1)
    ]

    pub sort-IsStrict : (xs : List A) → IsApart xs → IsStrict (sort xs)
    unfolding sort
    sort-IsStrict [] h = tt
    sort-IsStrict (x ∷ xs) h =
        insert-IsStrict x (sort xs) (All-sort (λ y. f x ≡ f y → ⊥) xs h.0) (sort-IsStrict xs h.1)
