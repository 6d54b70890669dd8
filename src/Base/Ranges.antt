-- ===== src/Base/Ranges.antt =====
-- The numbers that follow a number, and strictly ascending lists without gaps, which are such.
use Prim.Native.Nat.{ℕ, zero, suc, ◌+◌, ◌≤◌, ◌<◌}
use mathlib.Core.Path.{◌≡◌, refl, sym, ap}
use mathlib.Core.Logic.{inl, inr}
use mathlib.Core.Bool.{Bool}
use mathlib.Core.List.{List, [], ◌∷◌, map}
use native.Mathlib.Omega.{arith}
use pixelflow.Base.Tests.{Bool-cases}
use pixelflow.Base.Lists.{
  IsIn, here, there, IsIn-cons, not-IsIn-nil, All, All-IsIn, All-weaken, All-filter, filter, length,
  take,
}

-- k + 1, …, k + n
unfoldable pub numbers_after : ℕ → ℕ → List ℕ
numbers_after k zero = []
numbers_after k (suc n) = suc k ∷ numbers_after (suc k) n

abbrev pub IsStrictList : List ℕ → Type 0
IsStrictList [] = Unit
IsStrictList (x ∷ xs) = All (λ y. x < y) xs × IsStrictList xs

pub strict-eq-numbers_after :
    (k : ℕ) (xs : List ℕ)
    → IsStrictList xs
    → All (λ x. k < x) xs
    → ((n x : ℕ) → IsIn x xs → k < n → n ≤ x → IsIn n xs)
    → xs ≡ numbers_after k (length xs)
unfolding numbers_after
strict-eq-numbers_after k [] strict above dense = refl
strict-eq-numbers_after k (x ∷ xs) strict above dense =
    let first : x ≡ suc k =
      elim (IsIn-cons refl (dense (suc k) x (here refl) (omega arith) (omega (arith, above.0)))) [
        | inl e ↦ sym e
        | inr m ↦ absurd (omega (arith, above.0, All-IsIn (λ y. x < y) m strict.0))
      ] in
    let rest =
      strict-eq-numbers_after (suc k) xs strict.1
        (All-weaken _ _ (λ y p. omega (arith, p, first)) xs strict.0)
        (λ n y m low high. elim (IsIn-cons refl (dense n y (there m) (omega (arith, low)) high)) [
          | inl e ↦ absurd (omega (arith, low, e, first))
          | inr i ↦ i
        ]) in
    cc (first, rest)

pub take-numbers_after :
    (m k n : ℕ) → take m (numbers_after k n) ≡ numbers_after k (length (take m (numbers_after k n)))
unfolding numbers_after
take-numbers_after zero k n = refl
take-numbers_after (suc m) k zero = refl
take-numbers_after (suc m) k (suc n) = ap (λ xs. suc k ∷ xs) (take-numbers_after m (suc k) n)

pub map-take {ℓ} :
    {A : Type ℓ} (f : A → ℕ) (m : ℕ) (xs : List A) → map f (take m xs) ≡ take m (map f xs)
map-take f zero xs = refl
map-take f (suc m) [] = refl
map-take f (suc m) (x ∷ xs) = ap (λ ys. f x ∷ ys) (map-take f m xs)

-- A page that is not full holds all there is.
pub take-short {ℓ} : {A : Type ℓ} (m : ℕ) (xs : List A) → length (take m xs) < m → take m xs ≡ xs
take-short zero xs h = absurd (omega (arith, h))
take-short (suc m) [] h = refl
take-short (suc m) (x ∷ xs) h = ap (λ ys. x ∷ ys) (take-short m xs (omega (arith, h)))

pub map-filter {ℓ} :
    {A : Type ℓ} (f : A → ℕ) (test : ℕ → Bool) (xs : List A)
    → map f (filter (λ x. test (f x)) xs) ≡ filter test (map f xs)
map-filter f test [] = refl
map-filter f test (x ∷ xs) = elim (Bool-cases (test (f x))) [
  | inl t ↦ rw (t, map-filter f test xs) refl
  | inr t ↦ rw (t, map-filter f test xs) refl
]

pub IsStrictList-filter :
    (test : ℕ → Bool) (xs : List ℕ) → IsStrictList xs → IsStrictList (filter test xs)
IsStrictList-filter test [] h = tt
IsStrictList-filter test (x ∷ xs) h = elim (Bool-cases (test x)) [
  | inl t ↦ rw t (All-filter _ _ test (λ _ p _. p) xs h.0, IsStrictList-filter test xs h.1)
  | inr t ↦ rw t (IsStrictList-filter test xs h.1)
]

pub numbers_after-le : (k n x : ℕ) → IsIn x (numbers_after k n) → x ≤ k + n
unfolding numbers_after
numbers_after-le k zero x m = absurd (not-IsIn-nil refl m)
numbers_after-le k (suc n) x m = elim (IsIn-cons refl m) [
  | inl e ↦ omega (arith, e)
  | inr i ↦ omega (arith, numbers_after-le (suc k) n x i)
]
