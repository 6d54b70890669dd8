-- ===== src/Base/Dict.antt =====
-- Python's `dict` with string keys: entries in order of insertion; a key that is there is
-- overwritten in its place.
use Prim.Native.String.{String}
use mathlib.Core.Path.{◌≡◌, refl, sym, ap, subst, ◌∙◌}
use mathlib.Core.Logic.{◌≢◌, ◌⊎◌, inl, inr}
use mathlib.Core.Option.{Option, none, some}
use mathlib.Core.List.{List, [], ◌∷◌, map}
use native.Mathlib.Omega.{arith}
use text.Mathlib.Text.{◌==◌}
use text.Mathlib.TextEquality.{eq_iff}
use pixelflow.Base.Tests.{if◌then◌else◌, Bool-cases}
use pixelflow.Base.Lists.{All, All-IsIn, IsIn, IsIn-map, map-IsIn, here, there, not-IsIn-nil}

abbrev pub Dict {ℓ} : Type ℓ → Type ℓ
Dict V = List (String × V)

module _ {ℓ} {V : Type ℓ} where
  -- d.get(k)
  unfoldable pub get : String → Dict V → Option V
  get k [] = none
  get k ((j, v) ∷ d) = if j == k then some v else get k d

  -- d[k] = v
  unfoldable pub put : String → V → Dict V → Dict V
  put k v [] = (k, v) ∷ []
  put k v ((j, w) ∷ d) = if j == k then (k, v) ∷ d else (j, w) ∷ put k v d

  -- d.pop(k, None)
  unfoldable pub pop : String → Dict V → Dict V
  pop k [] = []
  pop k ((j, v) ∷ d) = let rest = pop k d in if j == k then rest else (j, v) ∷ rest

  -- d.values()
  abbrev pub values : Dict V → List V
  values [] = []
  values ((j, v) ∷ d) = v ∷ values d

  pub get-put :
      (k j : String) (v : V) (d : Dict V) → get j (put k v d) ≡ (if k == j then some v else get j d)
  unfolding get put
  get-put k j v [] = refl
  get-put k j v ((i, w) ∷ d) = ground (arith, eq_iff k j, eq_iff i k, eq_iff i j, get-put k j v d)

  pub get-pop : (k j : String) (d : Dict V) → get j (pop k d) ≡ (if k == j then none else get j d)
  unfolding get pop
  get-pop k j [] = ground arith
  get-pop k j ((i, v) ∷ d) = ground (arith, eq_iff k j, eq_iff i k, eq_iff i j, get-pop k j d)

  pub get-put_self : (k : String) (v : V) (d : Dict V) → get k (put k v d) ≡ some v
  get-put_self k v d = ground (arith, get-put k k v d, eq_iff k k)

  pub get-put_ne : (k j : String) (v : V) (d : Dict V) → k ≢ j → get j (put k v d) ≡ get j d
  get-put_ne k j v d h = ground (arith, get-put k j v d, eq_iff k j)

  pub IsIn-values_of_get : (k : String) (v : V) (d : Dict V) → get k d ≡ some v → IsIn v (values d)
  unfolding get
  IsIn-values_of_get k v [] h = absurd (cc)
  IsIn-values_of_get k v ((j, w) ∷ d) h = elim (Bool-cases (j == k)) [
    | inl e ↦ here (ground arith)
    | inr e ↦ there (IsIn-values_of_get k v d (ground arith))
  ]

  -- What holds of every value is kept by a write of a value of which it holds.
  pub All-put {κ} :
      (P : V → Type κ) (k : String) (v : V) (d : Dict V)
      → P v
      → All P (values d)
      → All P (values (put k v d))
  unfolding put
  All-put P k v [] p h = (p, tt)
  All-put P k v ((j, w) ∷ d) p h = elim (Bool-cases (j == k)) [
    | inl e ↦ rw e (p, h.1)
    | inr e ↦ rw e (h.0, All-put P k v d p h.1)
  ]

  pub All-get {κ} :
      (P : V → Type κ) (k : String) (v : V) (d : Dict V) → get k d ≡ some v → All P (values d) → P v
  All-get P k v d e h = All-IsIn P (IsIn-values_of_get k v d e) h

-- A dictionary of records, each under its own identifier and no identifier twice.
module _ {ℓ} {V : Type ℓ} (id : V → String) where
  abbrev pub IsKeyed : Dict V → Type ℓ
  IsKeyed [] = Unit
  IsKeyed ((k, v) ∷ d) = (id v ≡ k) × (get k d ≡ none) × IsKeyed d

  pub put-IsKeyed : (v : V) (k : String) (d : Dict V) → id v ≡ k → IsKeyed d → IsKeyed (put k v d)
  unfolding put get
  put-IsKeyed v k [] e h = (e, refl, tt)
  put-IsKeyed v k ((j, w) ∷ d) e h = elim (Bool-cases (j == k)) [
    | inl p ↦ rw p (e, ap (λ i. get i d) (sym ((eq_iff j k).0 p)) ∙ h.1, h.2)
    | inr p ↦
        rw p
          (h.0, get-put_ne k j v d (λ q. ground (arith, eq_iff j k)) ∙ h.1, put-IsKeyed v k d e h.2)
  ]

  pub id_of_get : (k : String) (v : V) (d : Dict V) → IsKeyed d → get k d ≡ some v → id v ≡ k
  unfolding get
  id_of_get k v [] h e = absurd (cc)
  id_of_get k v ((j, w) ∷ d) h e = elim (Bool-cases (j == k)) [
    | inl p ↦ ground (arith, eq_iff j k, h.0)
    | inr p ↦ id_of_get k v d h.2 (ground arith)
  ]

  pub get_of_IsIn : (v : V) (d : Dict V) → IsKeyed d → IsIn v (values d) → get (id v) d ≡ some v
  unfolding get
  get_of_IsIn v [] h m = absurd (not-IsIn-nil refl m)
  get_of_IsIn v ((j, w) ∷ d) h (here e) = ground (arith, eq_iff j (id v), ap id e, h.0)
  get_of_IsIn v ((j, w) ∷ d) h (there m) =
      ground (arith, eq_iff j (id v), get_of_IsIn v d h.2 m, h.1)

  -- The loop `for x in xs: d[x.id] = x`.
  unfoldable pub put_all : List V → Dict V → Dict V
  put_all [] d = d
  put_all (x ∷ xs) d = put_all xs (put (id x) x d)

  pub put_all-IsKeyed : (xs : List V) (d : Dict V) → IsKeyed d → IsKeyed (put_all xs d)
  unfolding put_all
  put_all-IsKeyed [] d h = h
  put_all-IsKeyed (x ∷ xs) d h = put_all-IsKeyed xs (put (id x) x d) (put-IsKeyed x (id x) d refl h)

  -- Under each key stands a record of the list, or what stood there before.
  abbrev pub Overwritten : String → List V → Dict V → Type ℓ
  Overwritten k xs d =
      ((x : V) × IsIn x xs × (id x ≡ k) × (get k (put_all xs d) ≡ some x))
      ⊎ (All (λ x. id x ≢ k) xs × (get k (put_all xs d) ≡ get k d))

  pub get-put_all : (k : String) (xs : List V) (d : Dict V) → Overwritten k xs d
  unfolding put_all
  get-put_all k [] d = inr (tt, refl)
  get-put_all k (x ∷ xs) d = elim (get-put_all k xs (put (id x) x d)) [
    | inl (y, m, e, g) ↦ inl (y, there m, e, g)
    | inr (ne, g) ↦ elim (Bool-cases (id x == k)) [
      | inl p ↦ inl (x, here refl, (eq_iff (id x) k).0 p, g ∙ ground (arith, get-put (id x) k x d))
      | inr p ↦
          inr ((λ q. ground (arith, eq_iff (id x) k), ne), g ∙ ground (arith, get-put (id x) k x d))
    ]
  ]

  -- Writing back the updates of some of the values, each under its own identifier.
  pub get-put_all-map :
      (f : V → V) (xs : List V) (d : Dict V) (k : String) (v : V)
      → ((a : V) → id (f a) ≡ id a)
      → IsKeyed d
      → ((a : V) → IsIn a xs → IsIn a (values d))
      → get k d ≡ some v
      → (IsIn v xs × (get k (put_all (map f xs) d) ≡ some (f v)))
        ⊎ ((IsIn v xs → ⊥) × (get k (put_all (map f xs) d) ≡ some v))
  get-put_all-map f xs d k v same keyed part e = elim (get-put_all k (map f xs) d) [
    | inl (x, m, p, g) ↦
        let (a, ma, q) = IsIn-map f x xs m in
        let there_is = get_of_IsIn a d keyed (part a ma) in
        let here_is : id a ≡ k = sym (same a) ∙ ap id (sym q) ∙ p in
        let one : a ≡ v = cc (there_is, ap (λ i. get i d) here_is) in
        inl (subst (λ w. IsIn w xs) one ma, cc (ap f one))
    | inr (ne, g) ↦
        inr (
          λ m. All-IsIn (λ x. id x ≢ k) (map-IsIn f m) ne (same v ∙ id_of_get k v d keyed e),
          g ∙ e,
        )
  ]

  pub All-put_all {κ} :
      (P : V → Type κ) (xs : List V) (d : Dict V)
      → All P xs
      → All P (values d)
      → All P (values (put_all xs d))
  unfolding put_all
  All-put_all P [] d px h = h
  All-put_all P (x ∷ xs) d px h =
      All-put_all P xs (put (id x) x d) px.1 (All-put P (id x) x d px.0 h)
