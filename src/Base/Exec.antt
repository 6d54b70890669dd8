-- ===== src/Base/Exec.antt =====
-- Methods that change an object and may raise. What was written before an exception stays written.
use mathlib.Core.Path.{◌≡◌}
use pixelflow.Base.Results.{Result, ok, err, Error}

abbrev pub Exec {ℓ} : Type ℓ → Type ℓ → Type ℓ
Exec S A = S → Result A × S

module _ {ℓ} {S A : Type ℓ} where
  abbrev pub pure : A → Exec S A
  pure a s = (ok a, s)

  abbrev pub raise : Error → Exec S A
  raise e s = (err e, s)

  abbrev pub lift : Result A → Exec S A
  lift r s = (r, s)

  -- `try: m  except: handler`
  abbrev pub on_error : Result A → (Error → Exec S A) → Exec S A
  on_error (ok a) handler s = (ok a, s)
  on_error (err e) handler s = handler e s

  unfoldable pub catch : Exec S A → (Error → Exec S A) → Exec S A
  catch m handler s = let (r, s') = m s in on_error r handler s'

module _ {ℓ} {S A B : Type ℓ} where
  abbrev pub continue : Result A → (A → Exec S B) → Exec S B
  continue (ok a) f s = f a s
  continue (err e) f s = (err e, s)

  infixl 5 ◌>>=◌ ◌>>◌
  unfoldable pub ◌>>=◌ : Exec S A → (A → Exec S B) → Exec S B
  ◌>>=◌ m f s = let (r, s') = m s in continue r f s'

  abbrev pub ◌>>◌ : Exec S A → Exec S B → Exec S B
  m >> n = m >>= λ _. n

-- The action leaves this part of the state as it is, whether it returns or raises.
abbrev pub Leaves {ℓ κ} : {S A : Type ℓ} {P : Type κ} → (S → P) → Exec S A → Type (ℓ ⊔ κ)
Leaves {S = S} part m = (s : S) → part (m s).1 ≡ part s
