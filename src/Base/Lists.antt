-- ===== src/Base/Lists.antt =====
-- Lists: native lengths, slices, filters by Boolean tests, and membership by recursion.
use Prim.Native.Nat.{ℕ, zero, suc, ◌+◌, ◌≤◌}
use mathlib.Core.Path.{◌≡◌, refl, sym, ap, subst, ◌∙◌}
use mathlib.Core.Logic.{◌⊎◌, inl, inr}
use mathlib.Core.Bool.{Bool, true, false, ◌||◌}
use mathlib.Core.Option.{Option, none, some}
use mathlib.Core.List.{List, [], ◌∷◌, ◌++◌, map}
use native.Mathlib.Omega.{arith}
use pixelflow.Base.Tests.{if◌then◌else◌, Bool-cases}

module _ {ℓ} {A : Type ℓ} where
  abbrev pub length : List A → ℕ
  length [] = 0
  length (x ∷ xs) = suc (length xs)

  -- xs[:n]
  abbrev pub take : ℕ → List A → List A
  take zero xs = []
  take (suc n) [] = []
  take (suc n) (x ∷ xs) = x ∷ take n xs

  -- [x for x in xs if test(x)]
  abbrev pub filter : (A → Bool) → List A → List A
  filter test [] = []
  filter test (x ∷ xs) = let rest = filter test xs in if test x then x ∷ rest else rest

  -- next((x for x in xs if test(x)), None)
  abbrev pub find : (A → Bool) → List A → Option A
  find test [] = none
  find test (x ∷ xs) = let rest = find test xs in if test x then some x else rest

  -- any(test(x) for x in xs)
  abbrev pub any : (A → Bool) → List A → Bool
  any test [] = false
  any test (x ∷ xs) = test x || any test xs

  abbrev pub All {κ} : (A → Type κ) → List A → Type κ
  All P [] = Unit
  All P (x ∷ xs) = P x × All P xs

-- Membership, with the place where the element stands.
pub data IsIn {ℓ} {A : Type ℓ} (a : A) : List A → Type ℓ where
  here : {x : A} {xs : List A} → a ≡ x → IsIn a (x ∷ xs)
  there : {x : A} {xs : List A} → IsIn a xs → IsIn a (x ∷ xs)

pub not-IsIn-nil {ℓ} : {A : Type ℓ} {a : A} {xs : List A} → xs ≡ [] → IsIn a xs → ⊥
not-IsIn-nil e (here p) = cc
not-IsIn-nil e (there m) = cc

module _ {ℓ} {A : Type ℓ} where
  pub length-take-le : (n : ℕ) (xs : List A) → length (take n xs) ≤ n
  length-take-le zero xs = omega arith
  length-take-le (suc n) [] = omega arith
  length-take-le (suc n) (x ∷ xs) = omega (arith, length-take-le n xs)

  pub length-append : (xs ys : List A) → length (xs ++ ys) ≡ length xs + length ys
  length-append [] ys = omega arith
  length-append (x ∷ xs) ys = omega (arith, length-append xs ys)

  pub length-map {κ} : {B : Type κ} (f : A → B) (xs : List A) → length (map f xs) ≡ length xs
  length-map f [] = refl
  length-map f (x ∷ xs) = ap suc (length-map f xs)

  pub IsIn-take : (a : A) (n : ℕ) (xs : List A) → IsIn a (take n xs) → IsIn a xs
  IsIn-take a zero xs h = absurd (not-IsIn-nil refl h)
  IsIn-take a (suc n) [] h = h
  IsIn-take a (suc n) (x ∷ xs) (here e) = here e
  IsIn-take a (suc n) (x ∷ xs) (there h) = there (IsIn-take a n xs h)

  filter-cons_true :
      (test : A → Bool) (x : A) (xs : List A)
      → test x ≡ true
      → filter test (x ∷ xs) ≡ x ∷ filter test xs
  filter-cons_true test x xs e = rw e

  filter-cons_false :
      (test : A → Bool) (x : A) (xs : List A)
      → test x ≡ false
      → filter test (x ∷ xs) ≡ filter test xs
  filter-cons_false test x xs e = rw e

  pub IsIn-cons : {a x : A} {ys xs : List A} → ys ≡ x ∷ xs → IsIn a ys → (a ≡ x) ⊎ IsIn a xs
  IsIn-cons e (here p) = inl (cc)
  IsIn-cons {a} e (there m) = inr (subst (IsIn a) (cc) m)

  pub IsIn-filter :
      (test : A → Bool) (a : A) (xs : List A)
      → IsIn a (filter test xs)
      → IsIn a xs × (test a ≡ true)
  IsIn-filter test a [] h = absurd (not-IsIn-nil refl h)
  IsIn-filter test a (x ∷ xs) h = elim (Bool-cases (test x)) [
    | inl e ↦ elim (IsIn-cons (filter-cons_true test x xs e) h) [
      | inl p ↦ (here p, ap test p ∙ e)
      | inr m ↦ let r = IsIn-filter test a xs m in (there r.0, r.1)
    ]
    | inr e ↦
        let r = IsIn-filter test a xs (subst (IsIn a) (filter-cons_false test x xs e) h) in
        (there r.0, r.1)
  ]

  pub filter-IsIn :
      (test : A → Bool) {a : A} {xs : List A} → IsIn a xs → test a ≡ true → IsIn a (filter test xs)
  filter-IsIn test {a} (here {x = x} {xs = xs} p) t =
      subst (IsIn a) (sym (filter-cons_true test x xs (ap test (sym p) ∙ t))) (here p)
  filter-IsIn test {a} (there {x = x} {xs = xs} m) t =
      let rest = filter-IsIn test m t in
      elim (Bool-cases (test x)) [
        | inl e ↦ subst (IsIn a) (sym (filter-cons_true test x xs e)) (there rest)
        | inr e ↦ subst (IsIn a) (sym (filter-cons_false test x xs e)) rest
      ]

  pub All-of_IsIn {κ} : (P : A → Type κ) (xs : List A) → ((a : A) → IsIn a xs → P a) → All P xs
  All-of_IsIn P [] h = tt
  All-of_IsIn P (x ∷ xs) h = (h x (here refl), All-of_IsIn P xs (λ a m. h a (there m)))

  pub All-IsIn {κ} : (P : A → Type κ) {a : A} {xs : List A} → IsIn a xs → All P xs → P a
  All-IsIn P (here p) h = subst P (sym p) h.0
  All-IsIn P (there m) h = All-IsIn P m h.1

  pub IsIn-map {κ} :
      {B : Type κ} (f : A → B) (b : B) (xs : List A)
      → IsIn b (map f xs)
      → (a : A) × IsIn a xs × (b ≡ f a)
  IsIn-map f b [] h = absurd (not-IsIn-nil refl h)
  IsIn-map f b (x ∷ xs) (here e) = (x, here refl, e)
  IsIn-map f b (x ∷ xs) (there h) = let r = IsIn-map f b xs h in (r.0, there r.1, r.2)

  pub map-IsIn {κ} :
      {B : Type κ} (f : A → B) {a : A} {xs : List A} → IsIn a xs → IsIn (f a) (map f xs)
  map-IsIn f (here e) = here (ap f e)
  map-IsIn f (there m) = there (map-IsIn f m)

  pub find-eq-some :
      (test : A → Bool) (a : A) (xs : List A) → find test xs ≡ some a → IsIn a xs × (test a ≡ true)
  find-eq-some test a [] h = absurd (cc)
  find-eq-some test a (x ∷ xs) h = elim (Bool-cases (test x)) [
    | inl e ↦ let p : x ≡ a = ground arith in (here (sym p), ap test (sym p) ∙ e)
    | inr e ↦ let r = find-eq-some test a xs (ground arith) in (there r.0, r.1)
  ]

  pub find-eq-none :
      (test : A → Bool) {a : A} {xs : List A} → find test xs ≡ none → IsIn a xs → test a ≡ false
  find-eq-none test h (here {x = x} p) = elim (Bool-cases (test x)) [
    | inl e ↦ ground arith
    | inr e ↦ ap test p ∙ e
  ]
  find-eq-none test h (there {x = x} m) = find-eq-none test (ground arith) m

  pub any-eq-false :
      (test : A → Bool) {a : A} {xs : List A} → any test xs ≡ false → IsIn a xs → test a ≡ false
  any-eq-false test h (here {x = x} p) = ap test p ∙ ground arith
  any-eq-false test h (there {x = x} m) = any-eq-false test (ground arith) m

  pub filter-All :
      (test : A → Bool) (xs : List A) → All (λ x. test x ≡ true) xs → filter test xs ≡ xs
  filter-All test [] h = refl
  filter-All test (x ∷ xs) h =
      filter-cons_true test x xs h.0 ∙ ap (λ ys. x ∷ ys) (filter-All test xs h.1)

  pub All-take {κ} : (P : A → Type κ) (n : ℕ) (xs : List A) → All P xs → All P (take n xs)
  All-take P zero xs h = tt
  All-take P (suc n) [] h = tt
  All-take P (suc n) (x ∷ xs) h = (h.0, All-take P n xs h.1)

  -- What the test and the members of the list give together holds of what the filter keeps.
  pub All-filter {κ μ} :
      (P : A → Type κ) (Q : A → Type μ) (test : A → Bool)
      → ((a : A) → P a → test a ≡ true → Q a)
      → (xs : List A) → All P xs
      → All Q (filter test xs)
  All-filter P Q test f [] h = tt
  All-filter P Q test f (x ∷ xs) h = elim (Bool-cases (test x)) [
    | inl e ↦
        subst (All Q) (sym (filter-cons_true test x xs e)) (f x h.0 e, All-filter P Q test f xs h.1)
    | inr e ↦ subst (All Q) (sym (filter-cons_false test x xs e)) (All-filter P Q test f xs h.1)
  ]

  pub All-map {κ μ} :
      {B : Type μ} (P : A → Type κ) (Q : B → Type κ) (f : A → B)
      → ((a : A) → P a → Q (f a))
      → (xs : List A) → All P xs
      → All Q (map f xs)
  All-map P Q f g [] h = tt
  All-map P Q f g (x ∷ xs) h = (g x h.0, All-map P Q f g xs h.1)

  pub All-weaken {κ μ} :
      (P : A → Type κ) (Q : A → Type μ)
      → ((a : A) → P a → Q a)
      → (xs : List A) → All P xs
      → All Q xs
  All-weaken P Q f [] h = tt
  All-weaken P Q f (x ∷ xs) h = (f x h.0, All-weaken P Q f xs h.1)
